-- ===== src/Instrument/BugInspector.antt =====
-- src/instrument/bug_inspector.rs: the state of `BugInspector` and its own methods. The hooks are
-- in the children `Step`, `Checks`, `Distance`, `Control`, `StepEnd` and `CreateEnd`.
pub mod Step
pub mod Arith
pub mod Checks
pub mod Distance
pub mod Control
pub mod StepEnd
pub mod CreateEnd
pub mod Seen
pub mod Overflow
pub mod Recent
pub mod Cycle
pub mod Faults
pub mod Distances
pub mod Created
pub mod Fixed
use tevm.External.{OpCode}
use tevm.Instrument.Bug
use tevm.Instrument.Bug.{Bug, BugType, Heuristics, InstrumentConfig}
use tevm.Prelude.{
  ℕ, zero, suc, ◌+◌, ◌-◌, ◌%◌, Bool, List, [], ◌∷◌, ◌&&◌, Option, none, some, ◌==◌, ltb, push,
  pop_front, length, if◌then◌else◌, HashMap,
}
use tevm.Prelude.Maps
use tevm.Words.{u64_size}

pub record BugInspector : Type 0 where
  pub create_address_overrides : HashMap ℕ
  pub bug_data : List Bug
  pub heuristics : Heuristics
  pub pcs_by_address : HashMap (List ℕ)
  pub instrument_config : InstrumentConfig
  pub created_addresses : List ℕ
  pub managed_addresses : HashMap (List ℕ)
  pub inputs : List ℕ
  pub opcode : Option OpCode
  pub pc : ℕ
  pub step_index : ℕ
  pub last_index_sub : ℕ
  pub last_index_eq : ℕ

-- `BugInspector::default()`
abbrev pub default_bug_inspector : BugInspector
default_bug_inspector = record {
  create_address_overrides = [];
  bug_data = [];
  heuristics = Bug.default_heuristics;
  pcs_by_address = [];
  instrument_config = Bug.default_instrument_config;
  created_addresses = [];
  managed_addresses = [];
  inputs = [];
  opcode = none;
  pc = 0;
  step_index = 0;
  last_index_sub = 0;
  last_index_eq = 0;
}

abbrev pub enabled : BugInspector → Bool
enabled s = s.instrument_config.enabled

unfoldable pub inc_step_index : BugInspector → BugInspector
inc_step_index s = record s { step_index = (s.step_index + 1) % u64_size }

unfoldable pub possibly_if_equal : BugInspector → Bool
possibly_if_equal s =
    ltb s.step_index ((s.last_index_sub + 10) % u64_size)
    && ltb ((s.last_index_eq + 10) % u64_size) s.step_index

-- `iter().position(|a| *a == address)`, counted from `i`
unfoldable pub position_from : ℕ → List ℕ → ℕ → Option ℕ
position_from i [] address = none
position_from i (a ∷ addresses) address =
    if a == address then some i else position_from (suc i) addresses address

-- `heuristics.seen_addresses = ..`
abbrev pub set_seen : BugInspector → List ℕ → BugInspector
set_seen s addresses = record s { heuristics = record s.heuristics { seen_addresses = addresses } }

-- the lookup and the push at the end of `record_seen_address`
unfoldable pub find_or_push : ℕ → BugInspector → ℕ × BugInspector
unfolding position_from
find_or_push address s = elim (position_from 0 s.heuristics.seen_addresses address) [
  | some i ↦ (i, s)
  | none ↦ (
    length (push s.heuristics.seen_addresses address) - 1,
    set_seen s (push s.heuristics.seen_addresses address),
  )
]

-- "make sure target_address is the first address added"
unfoldable pub push_target_first : BugInspector → BugInspector
push_target_first s = elim s.heuristics.seen_addresses [
  | [] ↦ set_seen s (s.instrument_config.target_address ∷ [])
  | _ ∷ _ ↦ s
]

unfoldable pub record_seen_address : ℕ → BugInspector → ℕ × BugInspector
unfolding find_or_push push_target_first
record_seen_address address s =
    if s.instrument_config.record_branch_for_target_only
    then (let s' = push_target_first s in
        if s.instrument_config.target_address == address then (0, s') else find_or_push address s')
    else find_or_push address s

unfoldable pub record_pc : ℕ → ℕ → BugInspector → BugInspector
record_pc address pc s =
    let pcs = Maps.entry_or [] s.pcs_by_address address in
    record s { pcs_by_address = Maps.insert address (Maps.set_insert pc pcs) s.pcs_by_address }

-- the arm of `add_bug` for `Jumpi(dest)`: keep the last 256 elements
unfoldable pub add_coverage : ℕ → BugInspector → BugInspector
add_coverage dest s =
    let coverage = push s.heuristics.coverage dest in
    if s.instrument_config.heuristics
    then record s {
      heuristics = record s.heuristics {
        coverage = if ltb 256 (length coverage) then pop_front coverage else coverage;
      };
    }
    else s

-- the arms of `add_bug` for `Sload` and `Sstore`
unfoldable pub add_storage_bug : Bug → BugInspector → BugInspector
add_storage_bug bug s = record s {
  bug_data = push (if ltb 256 (length s.bug_data) then pop_front s.bug_data else s.bug_data) bug;
}

abbrev pub push_bug : Bug → BugInspector → BugInspector
push_bug bug s = record s { bug_data = push s.bug_data bug }

abbrev add_bug_by : BugType → Bug → BugInspector → BugInspector
add_bug_by (BugType.jumpi dest) bug s = add_coverage dest s
add_bug_by (BugType.sload _) bug s = add_storage_bug bug s
add_bug_by (BugType.sstore _ _) bug s = add_storage_bug bug s
add_bug_by _ bug s = push_bug bug s

unfoldable pub add_bug : Bug → BugInspector → BugInspector
unfolding add_coverage add_storage_bug
add_bug bug s = add_bug_by bug.bug_type bug s
