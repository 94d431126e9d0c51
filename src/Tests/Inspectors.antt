-- ===== src/Tests/Inspectors.antt =====
-- The theorems on the inspectors, at concrete inputs.
use Prim.Native.Nat.{min}
use tevm.Instrument.Bug.{BugType}
use tevm.External.{OpCode}
use tevm.External.Calls.{CallOutcome}
use tevm.Instrument.BugInspector.{BugInspector, default_bug_inspector, record_seen_address}
use tevm.Instrument.BugInspector.Arith.{exp_overflow, possible_truncation}
use tevm.Instrument.BugInspector.CreateEnd.{CreateOutcome, create_end}
use tevm.Instrument.BugInspector.Created.{create_end_moves}
use tevm.Instrument.BugInspector.Checks.{report_if}
use tevm.Instrument.BugInspector.Cycle.{step_end-step_Computes, Computes}
use tevm.Instrument.BugInspector.Distance.{gt_distance}
use tevm.Instrument.BugInspector.Control.{peephole_distance, half}
use tevm.Instrument.BugInspector.Distances.{gt_distance_flips, peephole_distance-min}
use tevm.Instrument.BugInspector.Faults.{step_end-panicked, panicked}
use tevm.Instrument.BugInspector.Overflow.{exp_overflow-eq-power, possible_truncation_iff}
use tevm.Instrument.BugInspector.Recent.{add_bugs-storage_le, add_bugs}
use tevm.Instrument.BugInspector.Seen.{record_seen_address-IsIndex, IsIndex}
use tevm.Instrument.BugInspector.Step.{step}
use tevm.Instrument.BugInspector.StepEnd.{step_end, arrive}
use tevm.Instrument.LogInspector.{CallTrace, Tracing, call, new_trace, call_end}
use tevm.Instrument.LogInspector.Nesting.{Calls, run_calls, count_calls, run_calls_total}
use tevm.Instrument.LogInspector.Siblings.{run_calls_siblings}
use tevm.Prelude.{
  ℕ, ◌+◌, ◌-◌, ◌*◌, ◌^◌, ◌≤◌, ◌<◌, ◌≡◌, refl, true, false, not, ◌||◌, [], ◌∷◌, none, some, ◌↔◌, ◌⊎◌,
  arith, ltb, leb, ◌==◌, HashMap, length, if◌then◌else◌,
}
use tevm.Prelude.Maps
use tevm.Prelude.Outcome.{ok}
use tevm.Tests.{ext, at, bug_of, tracing, call_inputs, call_outcome}
use tevm.Words.{u256_max, u256_size}

exp_overflow-eq-power_example :
    exp_overflow 3 5 243 ≡ ok (ltb u256_max (3 ^ 5) || not (3 ^ 5 == 243))
exp_overflow-eq-power_example = exp_overflow-eq-power 3 5 243 (omega arith)

possible_truncation_iff_example : (possible_truncation 255 256 ≡ true) ↔ (
    (k : ℕ) × (1 ≤ k)
    × (k < 32)
    × ((2 ^ (8 * k) - 1 ≡ 255) × (255 < 256) ⊎ (2 ^ (8 * k) - 1 ≡ 256) × (256 < 255)))
possible_truncation_iff_example = possible_truncation_iff 255 256

-- an inspector that records branches for the target 5 only, and has seen it and another address
abbrev targeted : BugInspector
targeted = record default_bug_inspector {
  instrument_config = record default_bug_inspector.instrument_config {
    record_branch_for_target_only = true;
    target_address = 5;
  };
  heuristics = record default_bug_inspector.heuristics { seen_addresses = 5 ∷ 7 ∷ [] };
}

record_seen_address-IsIndex_example : IsIndex 50 targeted (record_seen_address 50 targeted)
record_seen_address-IsIndex_example = record_seen_address-IsIndex 50 targeted refl

add_bugs-storage_le_example :
    length (add_bugs (bug_of (BugType.sload 1) ∷ []) default_bug_inspector).bug_data ≤ 257
add_bugs-storage_le_example =
    add_bugs-storage_le (bug_of (BugType.sload 1) ∷ []) default_bug_inspector 257 (tt, tt)
      (omega arith) (omega arith)

step_end-step_Computes_example :
    step_end ext (at 9 (44 ∷ [])) (step ext (at 1 (11 ∷ 33 ∷ [])) default_bug_inspector) ≡ (
      let (i, s') =
        arrive ext (at 9 (44 ∷ [])) (step ext (at 1 (11 ∷ 33 ∷ [])) default_bug_inspector) in
      ok (report_if ext OpCode.add i false BugType.integer_overflow s'))
step_end-step_Computes_example =
    step_end-step_Computes ext 11 33 [] (at 1 (11 ∷ 33 ∷ [])) (at 9 (44 ∷ [])) default_bug_inspector
      Computes.adds (omega arith) (omega arith) refl refl refl refl refl

-- after EXP with the base 0 and the exponent 2
abbrev after_exp : BugInspector
after_exp = record default_bug_inspector { opcode = some OpCode.exp; inputs = 0 ∷ 2 ∷ [] }

step_end-panicked_example : panicked (step_end ext (at 1 (0 ∷ [])) after_exp) ≡ some true
step_end-panicked_example = step_end-panicked ext (at 1 (0 ∷ [])) after_exp

gt_distance_flips_example :
    leb (gt_distance 8 8) 0
    ≡ (if 8 == 8 then true else if ltb 8 8 then leb 8 (8 + 0) else ltb 8 (8 + 0))
gt_distance_flips_example = gt_distance_flips 8 8 0 (omega arith) (omega arith) (omega arith)

peephole_distance-min_example :
    (peephole_distance 5 ≡ min 5 (u256_size - 5)) ↔ ((5 ≤ 2 ^ 255) ⊎ (half < 5))
peephole_distance-min_example = peephole_distance-min 5 (omega arith)

abbrev created_state : HashMap ℕ
created_state = (7, 70) ∷ []

abbrev overriding : BugInspector
overriding = record default_bug_inspector { create_address_overrides = (7, 8) ∷ [] }

abbrev created : CreateOutcome ℕ
created = record { result = 1; address = some 7 }

create_end_moves_example :
    ((create_end overriding created_state created).1 ≡ record { result = 1; address = some 8 })
    × (Maps.get (create_end overriding created_state created).0 8 ≡ some 70)
unfolding Maps.get
create_end_moves_example = create_end_moves overriding created_state created 7 8 8 refl refl refl

-- two calls at one depth
abbrev two_calls : Calls
two_calls =
    Calls.calls call_inputs Calls.done call_outcome
      (Calls.calls call_inputs Calls.done call_outcome Calls.done)

run_calls_total_example :
    (t' : Tracing) × (run_calls two_calls tracing ≡ ok t')
    × (t'.locals.call_depth ≡ 0)
    × (length t'.inspector.traces ≡ 0 + count_calls two_calls)
run_calls_total_example = run_calls_total two_calls tracing refl (omega arith)

abbrev first_trace : CallTrace
first_trace = record {
  from_address = 9;
  to = 8;
  value = 5;
  input = 1 ∷ [];
  depth = 0;
  return_data = some (2 ∷ []);
  is_static = false;
  status = some 1;
  id = 0;
}

abbrev second_trace : CallTrace
second_trace = record first_trace { return_data = none; status = none; id = 1 }

abbrev traced : Tracing
traced = record {
  locals = record { counter = 2; call_depth = 0 };
  inspector = record tracing.inspector { traces = first_trace ∷ second_trace ∷ [] };
}

run_calls_siblings_example : (second_trace.status ≡ none) × (second_trace.return_data ≡ none)
unfolding run_calls call new_trace call_end
run_calls_siblings_example =
    run_calls_siblings two_calls tracing {t' = traced} 0 1 {x = first_trace} {y = second_trace} refl
      refl (omega arith) refl refl refl

-- two calls at one depth with two outcomes
abbrev late_outcome : CallOutcome
late_outcome = record { output = 7 ∷ []; result = 2 }

abbrev differing_calls : Calls
differing_calls =
    Calls.calls call_inputs Calls.done call_outcome
      (Calls.calls call_inputs Calls.done late_outcome Calls.done)
