-- ===== src/Response.antt =====
-- src/response.rs: the results of a transaction, as the executor collects them and as Python sees
-- them. The conversions are in the children.
pub mod BugTypes
pub mod Wrappers
pub mod Traces
pub mod Conversion
pub mod SeenPcs
pub mod Readable
pub mod Shown
use tevm.External.Execution.{TxResult}
use tevm.External.Numbers.{BigInt}
use tevm.Instrument.Bug.{Bug, Heuristics}
use tevm.Instrument.LogInspector.{CallTrace, Log}
use tevm.Prelude.{ℕ, Bool, List, String, HashMap}
use tevm.Prelude.Texts.{TextMap}

pub record RevmResult : Type 0 where
  pub result : TxResult
  pub bug_data : List Bug
  pub heuristics : Heuristics
  pub seen_pcs : HashMap (List ℕ)
  pub traces : List CallTrace
  pub transient_logs : List Log
  pub ignored_addresses : List ℕ

pub record WrappedBug : Type 0 where
  pub bug_type : TextMap String
  pub opcode : ℕ
  pub position : ℕ
  pub address_index : ℕ

pub record WrappedMissedBranch : Type 0 where
  pub prev_pc : ℕ
  pub dest_pc : ℕ
  pub cond : Bool
  pub distance : BigInt
  pub address_index : ℕ

pub record WrappedHeuristics : Type 0 where
  pub coverage : List ℕ
  pub missed_branches : List WrappedMissedBranch
  pub sha3_mapping : TextMap (List ℕ)
  pub seen_addresses : List String
  pub extra_data : BigInt

pub record PyLog : Type 0 where
  pub id : ℕ
  pub depth : ℕ
  pub address : String
  pub topics : List String
  pub content : String

pub record PyCallTrace : Type 0 where
  pub id : ℕ
  pub caller : String
  pub to : String
  pub value : BigInt
  pub input : String
  pub depth : ℕ
  pub return_data : String
  pub is_static : Bool
  pub status : String

pub record Response : Type 0 where
  pub success : Bool
  pub exit_reason : String
  pub content : List ℕ
  pub events : List PyLog
  pub traces : List PyCallTrace
  pub bug_data : List Bug
  pub heuristics : Heuristics
  pub gas_usage : ℕ
  pub ignored_addresses : List String
  pub seen_pcs : HashMap (List ℕ)
