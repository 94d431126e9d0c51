-- ===== src/Instrument/Bug.antt =====
-- src/instrument/bug.rs: bug signals, missed branches, heuristics and the configuration.
pub mod Missed
use tevm.Prelude.{ℕ, Bool, true, false, List, [], ◌&&◌, ◌==◌, push, any, if◌then◌else◌, HashMap}
use tevm.Prelude.Maps
use tevm.Words.{u256_max}

pub data BugType : Type 0 where
  integer_overflow integer_sub_underflow integer_div_by_zero integer_mod_by_zero : BugType
  possible_integer_truncation timestamp_dependency block_number_dependency : BugType
  block_value_dependency tx_origin_dependency revert_or_invalid unclassified : BugType
  -- input parameter size, destination address
  call : ℕ → ℕ → BugType
  jumpi : ℕ → BugType
  sload : ℕ → BugType
  -- storage key, value
  sstore : ℕ → ℕ → BugType

pub record Bug : Type 0 where
  pub bug_type : BugType
  pub opcode : ℕ
  pub position : ℕ
  pub address_index : ℕ

-- `Bug::new`
abbrev pub new_bug : BugType → ℕ → ℕ → ℕ → Bug
new_bug bug_type opcode position address_index = record {
  bug_type = bug_type;
  opcode = opcode;
  position = position;
  address_index = address_index;
}

pub record MissedBranch : Type 0 where
  pub prev_pc : ℕ
  pub cond : Bool
  pub dest_pc : ℕ
  pub distance : ℕ
  pub address_index : ℕ

-- `MissedBranch::new`
abbrev pub new_missed_branch : ℕ → ℕ → Bool → ℕ → ℕ → MissedBranch
new_missed_branch prev_pc dest_pc cond distance address_index = record {
  prev_pc = prev_pc;
  cond = cond;
  dest_pc = dest_pc;
  distance = distance;
  address_index = address_index;
}

pub record Heuristics : Type 0 where
  pub skip : Bool
  pub coverage : List ℕ
  pub distance : ℕ
  pub missed_branches : List MissedBranch
  pub sha3_mapping : HashMap (List ℕ)
  pub seen_addresses : List ℕ

-- `Heuristics::default()` and `Heuristics::new()`
abbrev pub default_heuristics : Heuristics
default_heuristics = record {
  skip = true;
  coverage = [];
  distance = u256_max;
  missed_branches = [];
  sha3_mapping = [];
  seen_addresses = [];
}

-- `Heuristics::reset`
unfoldable pub reset : Heuristics → Heuristics
reset h = record h { skip = true; coverage = []; distance = u256_max; missed_branches = [] }

unfoldable pub record_sha3_mapping : List ℕ → ℕ → Heuristics → Heuristics
record_sha3_mapping input output h = record h {
  sha3_mapping = Maps.insert output input h.sha3_mapping;
}

-- the pattern of `matches!` in `record_missed_branch`
unfoldable pub same_branch : ℕ → ℕ → ℕ → MissedBranch → Bool
same_branch prev_pc dest_pc distance x =
    x.prev_pc == prev_pc && x.dest_pc == dest_pc && x.distance == distance

unfoldable pub record_missed_branch : ℕ → ℕ → Bool → ℕ → Heuristics → Heuristics
record_missed_branch prev_pc dest_pc cond address_index h =
    if any (same_branch prev_pc dest_pc h.distance) h.missed_branches then h else record h {
      missed_branches =
          push h.missed_branches (new_missed_branch prev_pc dest_pc cond h.distance address_index);
    }

pub record InstrumentConfig : Type 0 where
  pub enabled : Bool
  pub pcs_by_address : Bool
  pub heuristics : Bool
  pub record_branch_for_target_only : Bool
  pub target_address : ℕ
  pub record_sha3_mapping : Bool

-- `InstrumentConfig::default()`
abbrev pub default_instrument_config : InstrumentConfig
default_instrument_config = record {
  enabled = true;
  pcs_by_address = true;
  heuristics = true;
  record_branch_for_target_only = false;
  target_address = 0;
  record_sha3_mapping = true;
}
