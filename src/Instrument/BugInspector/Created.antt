-- ===== src/Instrument/BugInspector/Created.antt =====
-- The effect of `create_end` in src/instrument/bug_inspector.rs.
use tevm.Instrument.BugInspector.{BugInspector, enabled}
use tevm.Instrument.BugInspector.CreateEnd.{CreateOutcome, create_end, override_created, move_entry}
use tevm.Prelude.{
  ℕ, ◌≡◌, true, none, some, arith, Option-cases, inl, inr, ◌⊎◌, false, ◌==◌, if◌then◌else◌, HashMap,
}
use tevm.Prelude.Maps
use tevm.Prelude.Maps.{get-insert, get-remove}

module _ {R A : Type 0} (s : BugInspector) (state : HashMap A) (outcome : CreateOutcome R) where
  -- If the inspector is enabled and a contract was created at an address with an override, its
  -- state is moved there, if it has any: no other address changes, the created one is left empty
  -- unless it is the override itself, and the outcome names the override.
  pub create_end_moves :
      (address override_address j : ℕ)
      → enabled s ≡ true
      → outcome.address ≡ some address
      → Maps.get s.create_address_overrides address ≡ some override_address
      → let (state', outcome') = create_end s state outcome in
        (outcome' ≡ record { result = outcome.result; address = some override_address })
        × (Maps.get state' j ≡ (
            if override_address == j
            then elim (Maps.get state address) [
              | none ↦ if address == j then none else Maps.get state j
              | some value ↦ some value
            ]
            else if address == j
            then none
            else Maps.get state j))
  unfolding create_end override_created move_entry
  create_end_moves address override_address j on created found =
      elim (Option-cases (Maps.get state address)) [
        | inl empty ↦ ground (arith, get-remove address j state)
        | inr (value, held) ↦ ground (
          arith,
          get-insert override_address j value (Maps.remove address state),
          get-remove address j state,
        )
      ]

  -- Without an override for the created address, or with no created address, or with the inspector
  -- disabled, nothing changes.
  pub create_end_keeps :
      (enabled s ≡ false)
        ⊎ (outcome.address ≡ none)
        ⊎ ((address : ℕ) × (outcome.address ≡ some address)
            × (Maps.get s.create_address_overrides address ≡ none))
      → create_end s state outcome ≡ (state, outcome)
  unfolding create_end override_created
  create_end_keeps h = ground arith
