-- ===== src/Response/Conversion.antt =====
-- src/response.rs: `From<RevmResult>` for `Response`.
use Prim.Native.String.{String, ◌++◌}
use tevm.External.{Externals}
use tevm.External.Execution.{
  ExecutionResult, Output, TxResult, executed, refused, success, revert, halt,
}
use tevm.External.Numbers.{Numbers}
use tevm.External.Printers.{Printers}
use tevm.Prelude.{ℕ, Bool, false, List, [], some, map}
use tevm.Response.{Response, RevmResult}
use tevm.Response.BugTypes.{address_text}
use tevm.Response.Traces.{py_call_trace, py_log}

-- the four fields that depend on how the transaction ended
module _ (p : Printers) where
  unfoldable pub success_of : TxResult → Bool
  success_of (executed result) = p.is_success result
  success_of (refused _) = false

  unfoldable pub gas_of : TxResult → ℕ
  gas_of (executed result) = p.gas_used result
  gas_of (refused _) = 0

  unfoldable pub exit_reason_of : ExecutionResult → String
  exit_reason_of (success _ _) = "Success"
  exit_reason_of (revert _ _) = "Revert"
  exit_reason_of (halt _ reason) = p.debug_reason reason

  unfoldable pub content_of : ExecutionResult → List ℕ
  content_of (success _ (Output.call content)) = content
  content_of (success _ (Output.create _ (some address))) = p.address_bytes address
  content_of (revert _ output) = output
  content_of _ = []

  unfoldable pub reason_of : TxResult → String
  reason_of (executed result) = exit_reason_of result
  reason_of (refused e) = "EVM InfallibleError: " ++ p.debug_error e

  unfoldable pub data_of : TxResult → List ℕ
  unfolding content_of
  data_of (executed result) = content_of result
  data_of (refused _) = []

module _ (ext : Externals) (n : Numbers) (p : Printers) where
  unfoldable pub response_of : RevmResult → Response
  response_of r = record {
    success = success_of p r.result;
    exit_reason = reason_of p r.result;
    content = data_of p r.result;
    events = map (py_log ext n p) r.transient_logs;
    traces = map (py_call_trace ext n p) r.traces;
    bug_data = r.bug_data;
    heuristics = r.heuristics;
    gas_usage = gas_of p r.result;
    ignored_addresses = map (address_text ext p) r.ignored_addresses;
    seen_pcs = r.seen_pcs;
  }
