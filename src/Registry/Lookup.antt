-- ===== src/Registry/Lookup.antt =====
-- What is found after a registration (core/src/endbot_core/registry.py).
use endbot.Prelude.{
  ◌≡◌, some, String, arith, eq_refl, eq_iff, lookup, lookup-insert, ok, PyText, Option-cases, inl,
  inr,
}
use endbot.Registry.{BotIdentity, BotRegistry, register, get_by_name, get_by_id}

module _ (py : PyText) where
  -- A registration that returned is found by its UUID and by its name in any case.
  pub register_finds :
      (b : BotIdentity) (r : BotRegistry) (name : String)
      → (register py b r).1 ≡ ok tt
      → py.casefold name ≡ py.casefold b.name
      → let r' = (register py b r).0 in
        (get_by_id b.identity_id r' ≡ some b) × (get_by_name py name r' ≡ some b)
  unfolding register get_by_name get_by_id
  register_finds b r name h same = ground (
    arith,
    lookup-insert b.identity_id b.identity_id b r.by_id,
    lookup-insert (py.casefold b.name) (py.casefold name) b.identity_id r.name_to_id,
    eq_refl b.identity_id,
    eq_iff (py.casefold b.name) (py.casefold name),
  )

  -- A registration, whether it returns or raises, never changes what another name or UUID is found
  -- as: a Bot that a name finds before is the one that it finds after.
  pub register_keeps :
      (b c : BotIdentity) (r : BotRegistry) (name : String)
      → get_by_name py name r ≡ some c
      → get_by_name py name (register py b r).0 ≡ some c
  unfolding register get_by_name
  register_keeps b c r name h = elim (Option-cases (lookup (py.casefold name) r.name_to_id)) [
    | inl absent ↦ absurd (ground arith)
    | inr (i, found) ↦ ground (
      arith,
      eq_iff (py.casefold b.name) (py.casefold name),
      eq_iff b.identity_id i,
      lookup-insert b.identity_id i b r.by_id,
      lookup-insert (py.casefold b.name) (py.casefold name) b.identity_id r.name_to_id,
    )
  ]
