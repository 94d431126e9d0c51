-- ===== src/Instrument/LogInspector/Completion.antt =====
-- The hooks of src/instrument/log_inspector.rs: which traces a run of calls completes.
use tevm.External.Calls.{CallOutcome}
use tevm.Instrument.LogInspector.{CallTrace, Tracing}
use tevm.Instrument.LogInspector.Nesting.{Calls, done, logs, calls}
use tevm.Prelude.{ℕ, ◌+◌, List, [], ◌∷◌, ◌==◌, Option, none, some, if◌then◌else◌}
use tevm.Prelude.Outcome.{Outcome, ok}

-- The return data and the status of a trace.
abbrev pub Ending : Type 0
Ending = Option (List ℕ) × Option ℕ

abbrev pub ending_of : CallOutcome → Ending
ending_of outcome = (some outcome.output, some outcome.result)

-- those of the first trace of a depth, if there is one
unfoldable pub ending : ℕ → List CallTrace → Option Ending
ending d [] = none
ending d (c ∷ traces) = if c.depth == d then some (c.return_data, c.status) else ending d traces

-- The outcome of the last call of a run that ends at the depth `d`, where the calls of the run itself
-- are at the depth `k`; `before` is what there was before the run.
unfoldable pub last_ended : ℕ → ℕ → Calls → Option Ending → Option Ending
last_ended d k done before = before
last_ended d k (logs _ rest) before = last_ended d k rest before
last_ended d k (calls _ inner outcome rest) before =
    let inside = last_ended d (k + 1) inner before in
    last_ended d k rest (if k == d then some (ending_of outcome) else inside)

-- what `call_end` leaves at a depth with these traces
abbrev ended : ℕ → Tracing → List CallTrace → Outcome Tracing
ended depth t traces = ok (record {
  locals = record t.locals { call_depth = depth };
  inspector = record t.inspector { traces = traces };
})
