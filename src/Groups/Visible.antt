-- ===== src/Groups/Visible.antt =====
-- core/src/endbot_core/groups.py: `_VisibleGroups`, the group store as one principal sees it.
use endbot.Prelude.{
  ℕ, Bool, not, ◌&&◌, List, String, any, filter, Result, ok, localized, raise_if, Outcome, attempt,
  PyText, ◌>>=◌, ◌>>◌,
}
use endbot.Groups.{Group, GroupStore, is_named, get, create, delete, add, remove}
use endbot.Groups.Select.{select}

-- `visible` is `visible_to` of a group's identity for the principal.
module _ (py : PyText) (visible : String → Bool) where
  abbrev pub is_visible : Group → Bool
  is_visible g = visible g.identity

  -- `_VisibleGroups.groups`
  abbrev pub visible_groups : GroupStore → List Group
  visible_groups s = filter is_visible s.groups

  unfoldable pub visible_get : String → GroupStore → Result Group
  visible_get name s = do g ← get py name s; raise_if (not (is_visible g)) localized; ok g

  unfoldable pub visible_select : String → GroupStore → Result (Group × List (ℕ × String) × Bool)
  visible_select target s = do
    r ← select py target s
    raise_if (not (is_visible r.0)) localized
    ok r

  -- A name that a hidden group holds is refused like one that is not available.
  unfoldable pub visible_create : String → String → GroupStore → Outcome GroupStore (Unit {0})
  visible_create fresh name s =
      attempt (raise_if (any (λ g. is_named py name g && not (is_visible g)) s.groups) localized) s
        λ _. create py fresh name s

  unfoldable pub visible_delete : String → GroupStore → Outcome GroupStore (Unit {0})
  visible_delete name s = attempt (visible_get name s) s λ g. delete py g.name s

  unfoldable pub visible_add : String → String → GroupStore → Outcome GroupStore (Unit {0})
  visible_add name given s = attempt (visible_get name s) s λ g. add py g.name given s

  unfoldable pub visible_remove : String → String → GroupStore → Outcome GroupStore (Unit {0})
  visible_remove name given s = attempt (visible_get name s) s λ g. remove py g.name given s
