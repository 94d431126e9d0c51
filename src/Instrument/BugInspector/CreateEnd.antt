-- ===== src/Instrument/BugInspector/CreateEnd.antt =====
-- src/instrument/bug_inspector.rs: the hook `create_end`, which moves a created contract to the
-- address that overrides its own.
use tevm.Instrument.BugInspector.{BugInspector, enabled}
use tevm.Prelude.{ℕ, Option, none, some, if◌then◌else◌, HashMap}
use tevm.Prelude.Maps

-- revm's `CreateOutcome`; `R` is its interpreter result
pub record CreateOutcome (R : Type 0) : Type 0 where
  pub result : R
  pub address : Option ℕ

module _ {A : Type 0} where
  -- `if let Some(value) = state.remove(address) { state.insert(override_address, value) }`
  unfoldable pub move_entry : ℕ → ℕ → HashMap A → HashMap A
  move_entry address override_address state = elim (Maps.get state address) [
    | none ↦ Maps.remove address state
    | some value ↦ Maps.insert override_address value (Maps.remove address state)
  ]

module _ {R A : Type 0} where
  unfoldable pub override_created :
      HashMap A → CreateOutcome R → Option ℕ → HashMap A × CreateOutcome R
  unfolding move_entry
  override_created state outcome none = (state, outcome)
  override_created state outcome (some override_address) = elim outcome.address [
    | none ↦ (state, outcome)
    | some address ↦ (
      move_entry address override_address state,
      record { result = outcome.result; address = some override_address },
    )
  ]

  -- `state` is `context.journaled_state.state`
  unfoldable pub create_end :
      BugInspector → HashMap A → CreateOutcome R → HashMap A × CreateOutcome R
  unfolding override_created
  create_end s state outcome =
      if enabled s
      then elim outcome.address [
        | none ↦ (state, outcome)
        | some address ↦
            override_created state outcome (Maps.get s.create_address_overrides address)
      ]
      else (state, outcome)
