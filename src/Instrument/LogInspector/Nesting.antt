-- ===== src/Instrument/LogInspector/Nesting.antt =====
-- The hooks of src/instrument/log_inspector.rs over a properly nested run of calls.
use mathlib.Core.Path.{subst}
use tevm.External.Calls.{CallInputs, CallOutcome, EvmLog}
use tevm.Instrument.LogInspector.{
  CallTrace, Tracing, log, call, call_end, new_trace, finish_trace, finish_first, pred_usize,
  succ_usize,
}
use tevm.Prelude.{
  ℕ, suc, ◌+◌, ◌<◌, ◌≡◌, ◌≢◌, refl, sym, ap, ◌∙◌, Bool, true, ◌||◌, List, [], ◌∷◌, arith, ◌==◌,
  Bool-cases, inl, inr, push, length, any, length-push,
}
use tevm.Prelude.Outcome.{Outcome, ok, and_then}
use tevm.Words.{u64_size}

-- What a transaction does at one depth: logs, and calls with what they do themselves.
pub data Calls : Type 0 where
  done : Calls
  logs : EvmLog → Calls → Calls
  calls : CallInputs → Calls → CallOutcome → Calls → Calls

-- The hooks that revm runs for it.
unfoldable pub run_calls : Calls → Tracing → Outcome Tracing
run_calls done t = ok t
run_calls (logs evm_log rest) t = run_calls rest (log evm_log t)
run_calls (calls inputs inner outcome rest) t =
    and_then (run_calls inner (call inputs t))
      λ t1. and_then (call_end outcome t1) λ t2. run_calls rest t2

-- the number of calls
abbrev pub count_calls : Calls → ℕ
count_calls done = 0
count_calls (logs _ rest) = count_calls rest
count_calls (calls _ inner _ rest) = suc (count_calls inner + count_calls rest)

abbrev pub has_depth : ℕ → CallTrace → Bool
has_depth d c = c.depth == d

-- `call_end` writes the outcome to the first trace of its depth.
pub data Finished (d : ℕ) (outcome : CallOutcome) : List CallTrace → List CallTrace → Type 0 where
  here :
      (c : CallTrace) (traces : List CallTrace)
      → c.depth ≡ d
      → Finished d outcome (c ∷ traces) (finish_trace outcome c ∷ traces)
  there :
      (c : CallTrace) {traces traces' : List CallTrace}
      → c.depth ≢ d
      → Finished d outcome traces traces'
      → Finished d outcome (c ∷ traces) (c ∷ traces')

finish_first-Finished :
    (d : ℕ) (outcome : CallOutcome) (traces : List CallTrace)
    → any (has_depth d) traces ≡ true
    → (traces' : List CallTrace) × (finish_first d outcome traces ≡ ok traces')
      × Finished d outcome traces traces'
unfolding finish_first any
finish_first-Finished d outcome [] h = cc
finish_first-Finished d outcome (c ∷ traces) h = elim (Bool-cases (c.depth == d)) [
  | inl same ↦ (finish_trace outcome c ∷ traces, ground (arith, same), here c traces (ground arith))
  | inr other ↦
      let (traces', e, f) = finish_first-Finished d outcome traces (rw other at h) in
      (c ∷ traces', ground (arith, other, e), there c (ground arith) f)
]

module _ {d : ℕ} {outcome : CallOutcome} where
  Finished-length :
      {traces traces' : List CallTrace}
      → Finished d outcome traces traces'
      → length traces' ≡ length traces
  Finished-length (here c traces e) = refl
  Finished-length (there c n f) = ap suc (Finished-length f)

  Finished-any :
      {traces traces' : List CallTrace} (e : ℕ)
      → Finished d outcome traces traces'
      → any (has_depth e) traces' ≡ any (has_depth e) traces
  unfolding any finish_trace
  Finished-any e (here c traces p) = refl
  Finished-any e (there c n f) = ap (λ b. has_depth e c || b) (Finished-any e f)

-- What a run of calls leaves: the depth, the tracing mode, and the traces before it, with one more
-- for each call.
pub record Ran (n : ℕ) (t t' : Tracing) : Type 0 where
  pub depth : t'.locals.call_depth ≡ t.locals.call_depth
  pub enabled : t'.inspector.trace_enabled ≡ t.inspector.trace_enabled
  pub size : length t'.inspector.traces ≡ length t.inspector.traces + n
  pub keeps :
      (d : ℕ)
      → any (has_depth d) t.inspector.traces ≡ true
      → any (has_depth d) t'.inspector.traces ≡ true

pub log-Ran : (l : EvmLog) (t : Tracing) → Ran 0 t (log l t)
unfolding log
log-Ran l t = record {
  depth = ground arith;
  enabled = ground arith;
  size = ground arith;
  keeps = λ d h. ground arith;
}

call_end-Finished :
    (outcome : CallOutcome) (t : Tracing)
    → t.inspector.trace_enabled ≡ true
    → any (has_depth (pred_usize t.locals.call_depth)) t.inspector.traces ≡ true
    → (traces' : List CallTrace) × (call_end outcome t
        ≡ ok (record {
          locals = record t.locals { call_depth = pred_usize t.locals.call_depth };
          inspector = record t.inspector { traces = traces' };
        }))
      × Finished (pred_usize t.locals.call_depth) outcome t.inspector.traces traces'
unfolding call_end
call_end-Finished outcome t on h =
    let (traces', e, f) = finish_first-Finished _ outcome t.inspector.traces h in
    (traces', ground (arith, e), f)

pub pred-succ_usize : (d : ℕ) → d < u64_size → pred_usize (succ_usize d) ≡ d
pred-succ_usize d h = omega arith

any-push_has :
    (d : ℕ) (traces : List CallTrace) (c : CallTrace)
    → any (has_depth d) (push traces c) ≡ any (has_depth d) traces || has_depth d c
unfolding any
any-push_has d [] c = ground arith
any-push_has d (x ∷ traces) c = ground (arith, any-push_has d traces c)

-- the state after `call`, when traces are collected
module _ (inputs : CallInputs) (t : Tracing) (on : t.inspector.trace_enabled ≡ true) where
  pub call-enabled : (call inputs t).inspector.trace_enabled ≡ true
  unfolding call
  call-enabled = ground arith

  pub call-depth : (call inputs t).locals.call_depth ≡ succ_usize t.locals.call_depth
  unfolding call
  call-depth = ground arith

  pub call-traces :
      (call inputs t).inspector.traces
      ≡ push t.inspector.traces (new_trace t.locals.counter t.locals.call_depth inputs)
  unfolding call
  call-traces = ground arith

  call-has : any (has_depth t.locals.call_depth) (call inputs t).inspector.traces ≡ true
  unfolding new_trace
  call-has = rw call-traces (
      ground (
        arith,
        any-push_has t.locals.call_depth t.inspector.traces
            (new_trace t.locals.counter t.locals.call_depth inputs),
      ))

  call-keeps :
      (d : ℕ)
      → any (has_depth d) t.inspector.traces ≡ true
      → any (has_depth d) (call inputs t).inspector.traces ≡ true
  call-keeps d h = rw call-traces (
      ground (
        arith,
        any-push_has d t.inspector.traces (new_trace t.locals.counter t.locals.call_depth inputs),
      ))

-- One call with what it does inside, given the run of the inside.
pub call_back :
    (inputs : CallInputs) (outcome : CallOutcome) (n : ℕ) (t t1 : Tracing)
    → t.inspector.trace_enabled ≡ true
    → t.locals.call_depth < u64_size
    → Ran n (call inputs t) t1
    → (t2 : Tracing) × (call_end outcome t1 ≡ ok t2) × Ran (suc n) t t2
call_back inputs outcome n t t1 on small r =
    let back : pred_usize t1.locals.call_depth ≡ t.locals.call_depth =
      ap pred_usize (r.depth ∙ call-depth inputs t on)
      ∙ pred-succ_usize t.locals.call_depth small in
    let on1 : t1.inspector.trace_enabled ≡ true = r.enabled ∙ call-enabled inputs t on in
    let has : any (has_depth (pred_usize t1.locals.call_depth)) t1.inspector.traces ≡ true =
      rw back (r.keeps t.locals.call_depth (call-has inputs t on)) in
    let (traces', e, f) = call_end-Finished outcome t1 on1 has in
    (
      record {
        locals = record t1.locals { call_depth = pred_usize t1.locals.call_depth };
        inspector = record t1.inspector { traces = traces' };
      },
      e,
      record {
        depth = back;
        enabled = on1 ∙ sym on;
        size = omega (
          arith,
          Finished-length f,
          r.size,
          ap (λ (l : List CallTrace). length l) (call-traces inputs t on),
          length-push t.inspector.traces (new_trace t.locals.counter t.locals.call_depth inputs),
        );
        keeps = λ d h. Finished-any d f ∙ r.keeps d (call-keeps inputs t on d h);
      },
    )

Ran-trans : {m n k : ℕ} {t t1 t2 : Tracing} → k ≡ m + n → Ran m t t1 → Ran n t1 t2 → Ran k t t2
Ran-trans p a b = record {
  depth = b.depth ∙ a.depth;
  enabled = b.enabled ∙ a.enabled;
  size = omega (arith, a.size, b.size);
  keeps = λ d h. b.keeps d (a.keeps d h);
}

pub run_calls-Ran :
    (c : Calls) (t : Tracing)
    → t.inspector.trace_enabled ≡ true
    → t.locals.call_depth < u64_size
    → (t' : Tracing) × (run_calls c t ≡ ok t') × Ran (count_calls c) t t'
unfolding run_calls
run_calls-Ran done t on small =
    (t, refl, record { depth = refl; enabled = refl; size = omega arith; keeps = λ d h. h })
run_calls-Ran (logs l rest) t on small =
    let first = log-Ran l t in
    let small1 : (log l t).locals.call_depth < u64_size =
      subst (λ x. x < u64_size) (sym first.depth) small in
    let (t', e, r) = run_calls-Ran rest (log l t) (first.enabled ∙ on) small1 in
    (t', e, Ran-trans (omega arith) first r)
run_calls-Ran (calls inputs inner outcome rest) t on small =
    let deeper : (call inputs t).locals.call_depth < u64_size =
      subst (λ x. x < u64_size) (sym (call-depth inputs t on)) (omega arith) in
    let (t1, e1, r1) = run_calls-Ran inner (call inputs t) (call-enabled inputs t on) deeper in
    let (t2, e2, r2) = call_back inputs outcome (count_calls inner) t t1 on small r1 in
    let small2 : t2.locals.call_depth < u64_size = subst (λ x. x < u64_size) (sym r2.depth) small in
    let (t3, e3, r3) = run_calls-Ran rest t2 (r2.enabled ∙ on) small2 in
    (t3, rw e1 (rw e2 e3), Ran-trans (omega arith) r2 r3)

-- With traces collected, any properly nested run of calls and logs that begins at a call depth
-- below 2^64 goes through without the panic of `call_end`, returns to the call depth at which it
-- began, and adds one trace for each call.
pub run_calls_total :
    (c : Calls) (t : Tracing)
    → t.inspector.trace_enabled ≡ true
    → t.locals.call_depth < u64_size
    → (t' : Tracing) × (run_calls c t ≡ ok t')
      × (t'.locals.call_depth ≡ t.locals.call_depth)
      × (length t'.inspector.traces ≡ length t.inspector.traces + count_calls c)
run_calls_total c t on small =
    let (t', e, r) = run_calls-Ran c t on small in (t', e, r.depth, r.size)
