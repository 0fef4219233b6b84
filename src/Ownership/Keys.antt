-- ===== src/Ownership/Keys.antt =====
-- The owner keys: what tells two owners apart.
use Prim.Native.Char.{code}
use text.Mathlib.TextLemmas.{append_cancel_left, cons-append}
use endbot.Prelude.{
  ℕ, ◌≡◌, sym, ap, ◌∙◌, ◌≢◌, Option, none, some, String, arith, concat, ne→eq_false,
}
use endbot.Principal.{Principal, console}
use endbot.Ownership.{owner_key}

-- A principal with an XUID has its key from the XUID, whatever its player UUID.
owner_key_of_xuid :
    (p : Principal) {x : String}
    → p.xuid ≡ some x
    → x ≢ ""
    → owner_key (some p) ≡ some (concat "xuid:" x)
unfolding owner_key console
owner_key_of_xuid p {x} e ne = rw (e, ne→eq_false x "" ne) (ground arith)

-- A player without an XUID has its key from the player UUID.
owner_key_of_player :
    (p : Principal) {i : String}
    → p.xuid ≡ none
    → p.player_id ≡ some i
    → owner_key (some p) ≡ some (concat "player:" i)
unfolding owner_key console
owner_key_of_player p e f = rw (e, f)

abbrev first_code : String → ℕ
first_code String.[] = 0
first_code (String.◌∷◌ c s) = code c

prefixes_differ : (x y : String) → concat "xuid:" x ≢ concat "player:" y
prefixes_differ x y e =
    let xuid : first_code (concat "xuid:" x) ≡ 120 = ap first_code (cons-append "x" "uid:" x) in
    let player : first_code (concat "player:" y) ≡ 112 =
      ap first_code (cons-append "p" "layer:" y) in
    omega (arith, ap first_code e)

some_inj : (s t : String) → ◌≡◌ {A = Option String} (some s) (some t) → s ≡ t
some_inj s t e = cc

-- Two principals with XUIDs that are not empty have the same owner key only if the XUIDs are equal.
pub owner_key_identifies :
    (p q : Principal) (x y : String)
    → p.xuid ≡ some x
    → x ≢ ""
    → q.xuid ≡ some y
    → y ≢ ""
    → owner_key (some p) ≡ owner_key (some q)
    → x ≡ y
owner_key_identifies p q x y e ne f nf same =
    append_cancel_left "xuid:" x y
      (some_inj _ _ (sym (owner_key_of_xuid p e ne) ∙ same ∙ owner_key_of_xuid q f nf))

-- A principal with an XUID that is not empty never shares its owner key with a player that has no
-- XUID.
pub owner_key_separates :
    (p q : Principal) (x i : String)
    → p.xuid ≡ some x
    → x ≢ ""
    → q.xuid ≡ none
    → q.player_id ≡ some i
    → owner_key (some p) ≢ owner_key (some q)
owner_key_separates p q x i e ne f g same =
    prefixes_differ x i
      (some_inj _ _ (sym (owner_key_of_xuid p e ne) ∙ same ∙ owner_key_of_player q f g))
