-- ===== src/Groups/Tests.antt =====
-- The group store on concrete values.
use endbot.Prelude.{◌≡◌, refl, true, false, [], ◌∷◌, ℕ, Bool, String, List, ok, ◌==◌}
use endbot.Samples.{plain_text, new_file}
use endbot.Groups.{Group, GroupStore, init, create, add}
use endbot.Groups.Written.{IsStored}
use endbot.Groups.Invariant.{Reached, started, created, added, Reached-IsStored}
use endbot.Groups.Select.{select, IsSelection, select-IsSelection}
use endbot.Groups.Visible.{visible_delete, visible_add}
use endbot.Groups.Hidden.{
  Steps, deleting, adding, done, then_step, hidden_groups, Steps-hidden_groups,
}

abbrev no_groups : GroupStore
no_groups = record { path = new_file; groups = [] }

abbrev miners : Group
miners = record { identity = "g1"; name = "Miners"; members = "u1" ∷ "u2" ∷ [] }

abbrev guards : Group
guards = record { identity = "g2"; name = "Guards"; members = "u2" ∷ [] }

abbrev two_groups : GroupStore
two_groups = record { path = new_file; groups = miners ∷ guards ∷ [] }

started_empty : init plain_text new_file ≡ ok no_groups
unfolding init endbot.Prelude.read_document endbot.Groups.document_groups
started_empty = refl

abbrev with_miners : GroupStore
with_miners = (create plain_text "g1" "Miners" no_groups).0

miners_reached : Reached plain_text (add plain_text "Miners" "u1" with_miners).0
miners_reached =
    added "Miners" "u1" with_miners
      (created "g1" "Miners" no_groups refl refl (started new_file no_groups started_empty))

Reached-IsStored_example : IsStored plain_text (add plain_text "Miners" "u1" with_miners).0
Reached-IsStored_example = Reached-IsStored plain_text miners_reached

select_member : select plain_text "#Miners[2]" two_groups ≡ ok (miners, (2, "u2") ∷ [], true)
unfolding select endbot.Groups.Select.parse_target endbot.Groups.is_group_name
    endbot.Groups.Select.cut endbot.Groups.is_word endbot.Groups.Select.index_behind
    endbot.Groups.Select.bracketed endbot.Groups.Select.closed endbot.Groups.Select.is_index
    endbot.Groups.get endbot.Groups.group_name endbot.Groups.Select.selected
    endbot.Groups.Select.number_from endbot.Groups.Select.member_at
select_member = refl

select-IsSelection_example : IsSelection (select plain_text "#Miners[2]" two_groups)
select-IsSelection_example = select-IsSelection plain_text "#Miners[2]" two_groups

-- One principal, who does not see the second group.
abbrev sees_miners : String → Bool
sees_miners i = i == "g1"

abbrev after_add : GroupStore
after_add = (visible_add plain_text sees_miners "Miners" "u3" two_groups).0

abbrev after_delete : GroupStore
after_delete = (visible_delete plain_text sees_miners "Guards" after_add).0

two_calls : Steps plain_text sees_miners two_groups after_delete
two_calls =
    then_step (then_step (done two_groups) (adding "Miners" "u3" two_groups))
      (deleting "Guards" after_add)

Steps-hidden_groups_example :
    hidden_groups plain_text sees_miners after_delete.groups
    ≡ hidden_groups plain_text sees_miners two_groups.groups
Steps-hidden_groups_example = Steps-hidden_groups plain_text sees_miners two_calls
