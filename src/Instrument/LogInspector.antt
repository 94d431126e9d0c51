-- ===== src/Instrument/LogInspector.antt =====
-- src/instrument/log_inspector.rs: the inspector that collects logs and call traces.
pub mod Nesting
pub mod Siblings
pub mod Completion
use tevm.External.Calls.{CallInputs, CallOutcome, CallScheme, CallValue, EvmLog}
use tevm.Prelude.{
  ℕ, ◌+◌, ◌-◌, ◌%◌, Bool, true, false, not, List, [], ◌∷◌, Option, none, some, ◌==◌, push, map,
  if◌then◌else◌,
}
use tevm.Prelude.Outcome.{Outcome, ok, panic, and_then}
use tevm.Words.{u64_size}

-- The thread-local cells `COUNTER` and `CALL_DEPTH` (the latter of src/lib.rs).
pub record Locals : Type 0 where
  pub counter : ℕ
  pub call_depth : ℕ

pub record CallTrace : Type 0 where
  pub from_address : ℕ
  pub to : ℕ
  pub value : ℕ
  pub input : List ℕ
  pub depth : ℕ
  pub return_data : Option (List ℕ)
  pub is_static : Bool
  pub status : Option ℕ
  pub id : ℕ

pub record Log : Type 0 where
  pub id : ℕ
  pub depth : ℕ
  pub address : ℕ
  pub topics : List ℕ
  pub content : List ℕ

pub record LogInspector : Type 0 where
  pub trace_enabled : Bool
  pub traces : List CallTrace
  pub logs : List Log

-- `LogInspector::default()`
abbrev pub default_log_inspector : LogInspector
default_log_inspector = record { trace_enabled = false; traces = []; logs = [] }

-- What the hooks read and write: the thread-locals and the inspector.
pub record Tracing : Type 0 where
  pub locals : Locals
  pub inspector : LogInspector

abbrev pub succ_usize : ℕ → ℕ
succ_usize x = (x + 1) % u64_size

abbrev pub pred_usize : ℕ → ℕ
pred_usize x = (x + u64_size - 1) % u64_size

unfoldable pub log : EvmLog → Tracing → Tracing
log evm_log t =
    if t.inspector.trace_enabled
    then record {
      locals = record t.locals { counter = succ_usize t.locals.counter };
      inspector = record t.inspector {
        logs = push t.inspector.logs (record {
          id = t.locals.counter;
          depth = t.locals.call_depth;
          address = evm_log.address;
          topics = evm_log.topics;
          content = evm_log.content;
        });
      };
    }
    else t

abbrev pub is_static_of : CallScheme → Bool
is_static_of CallScheme.call = false
is_static_of CallScheme.call_code = false
is_static_of _ = true

abbrev pub from_to : CallInputs → CallScheme → ℕ × ℕ
from_to inputs CallScheme.delegate_call = (inputs.target_address, inputs.bytecode_address)
from_to inputs CallScheme.call_code = (inputs.target_address, inputs.bytecode_address)
from_to inputs _ = (inputs.caller, inputs.target_address)

abbrev pub value_of : CallValue → ℕ
value_of (CallValue.transfer value) = value
value_of _ = 0

-- the trace that `call` pushes, with the values of the two cells
unfoldable pub new_trace : ℕ → ℕ → CallInputs → CallTrace
new_trace id depth inputs = record {
  from_address = (from_to inputs inputs.scheme).0;
  to = (from_to inputs inputs.scheme).1;
  value = value_of inputs.value;
  input = inputs.input;
  depth = depth;
  return_data = none;
  is_static = is_static_of inputs.scheme;
  status = none;
  id = id;
}

-- `call`; its result is always `None`
unfoldable pub call : CallInputs → Tracing → Tracing
call inputs t =
    if t.inspector.trace_enabled
    then record {
      locals = record {
        counter = succ_usize t.locals.counter;
        call_depth = succ_usize t.locals.call_depth;
      };
      inspector = record t.inspector {
        traces = push t.inspector.traces (new_trace t.locals.counter t.locals.call_depth inputs);
      };
    }
    else t

-- the two fields that `call_end` writes
unfoldable pub finish_trace : CallOutcome → CallTrace → CallTrace
finish_trace outcome c = record c {
  return_data = some outcome.output;
  status = some outcome.result;
}

-- `traces.iter_mut().find(|c| c.depth == depth).expect(..)` and the two writes
unfoldable pub finish_first : ℕ → CallOutcome → List CallTrace → Outcome (List CallTrace)
unfolding finish_trace
finish_first depth outcome [] = panic
finish_first depth outcome (c ∷ traces) =
    let rest = finish_first depth outcome traces in
    if c.depth == depth
    then ok (finish_trace outcome c ∷ traces)
    else and_then rest (λ traces'. ok (c ∷ traces'))

-- `call_end`; its result is the outcome that it was given
unfoldable pub call_end : CallOutcome → Tracing → Outcome Tracing
unfolding finish_first
call_end outcome t =
    if t.inspector.trace_enabled
    then (let depth = pred_usize t.locals.call_depth in
        and_then (finish_first depth outcome t.inspector.traces) λ traces. ok (record {
          locals = record t.locals { call_depth = depth };
          inspector = record t.inspector { traces = traces };
        }))
    else ok t
