-- ===== src/Instrument/LogInspector/Siblings.antt =====
-- src/instrument/log_inspector.rs: several calls at one depth.
use mathlib.Core.Path.{subst}
use tevm.External.Calls.{CallInputs, CallOutcome, EvmLog}
use tevm.Instrument.LogInspector.{
  CallTrace, Tracing, log, call, call_end, new_trace, finish_trace, finish_first, pred_usize,
}
use tevm.Instrument.LogInspector.Nesting.{
  Calls, done, logs, calls, run_calls, Finished, here, there,
}
use tevm.Prelude.{
  ℕ, zero, suc, ◌≡◌, ◌<◌, ◌≢◌, refl, sym, ap, ◌∙◌, ◌||◌, Bool, true, false, not, ◌&&◌, List, [],
  ◌∷◌, none, some, arith, ◌==◌, ==_iff, some_inj, Bool-cases, inl, inr, push, get_elem?, is_some,
}
use tevm.Prelude.Outcome.{Outcome, ok, and_then, and_then-eq-ok, ok-injective}

-- A completed trace has a status or return data.
abbrev pub is_completed : CallTrace → Bool
is_completed c = is_some c.status || is_some c.return_data

-- whether no completed trace of the list has the depth
abbrev pub none_completed : ℕ → List CallTrace → Bool
none_completed d [] = true
none_completed d (c ∷ traces) = not (c.depth == d && is_completed c) && none_completed d traces

-- Only the first trace of each depth may be completed.
abbrev pub FirstsOnly : List CallTrace → Type 0
FirstsOnly [] = Unit
FirstsOnly (c ∷ traces) = (none_completed c.depth traces ≡ true) × FirstsOnly traces

none_completed-push :
    (d : ℕ) (traces : List CallTrace) (c : CallTrace)
    → is_completed c ≡ false
    → none_completed d (push traces c) ≡ none_completed d traces
none_completed-push d [] c h = ground arith
none_completed-push d (x ∷ traces) c h = ground (arith, none_completed-push d traces c)

FirstsOnly-push :
    (traces : List CallTrace) (c : CallTrace)
    → is_completed c ≡ false
    → FirstsOnly traces
    → FirstsOnly (push traces c)
FirstsOnly-push [] c h f = (refl, tt)
FirstsOnly-push (x ∷ traces) c h f =
    (none_completed-push x.depth traces c h ∙ f.0, FirstsOnly-push traces c h f.1)

finish_first-inverse :
    (d : ℕ) (outcome : CallOutcome) (traces : List CallTrace) {traces' : List CallTrace}
    → finish_first d outcome traces ≡ ok traces'
    → Finished d outcome traces traces'
unfolding finish_first
finish_first-inverse d outcome [] h = cc
finish_first-inverse d outcome (c ∷ traces) h = elim (Bool-cases (c.depth == d)) [
  | inl same ↦
      subst (Finished d outcome (c ∷ traces)) (ok-injective (rw same at h))
        (here c traces ((==_iff c.depth d).0 same))
  | inr other ↦
      let found =
        and_then-eq-ok (finish_first d outcome traces) (λ l. ok (c ∷ l)) (rw other at h) in
      subst (Finished d outcome (c ∷ traces)) (ok-injective found.2)
        (there c (ground (arith, other)) (finish_first-inverse d outcome traces found.1))
]

module _ {d : ℕ} {outcome : CallOutcome} where
  none_completed-Finished :
      {traces traces' : List CallTrace} (e : ℕ)
      → d ≢ e
      → Finished d outcome traces traces'
      → none_completed e traces' ≡ none_completed e traces
  unfolding finish_trace
  none_completed-Finished e n (here c traces p) = ground arith
  none_completed-Finished e n (there c q f) =
      ap (λ b. not (c.depth == e && is_completed c) && b) (none_completed-Finished e n f)

  FirstsOnly-Finished :
      {traces traces' : List CallTrace}
      → Finished d outcome traces traces'
      → FirstsOnly traces
      → FirstsOnly traces'
  unfolding finish_trace
  FirstsOnly-Finished (here c traces p) h = h
  FirstsOnly-Finished (there c q f) h =
      (none_completed-Finished c.depth (λ e. q (sym e)) f ∙ h.0, FirstsOnly-Finished f h.1)

abbrev OnlyFirsts : Tracing → Type 0
OnlyFirsts t = FirstsOnly t.inspector.traces

log-OnlyFirsts : (l : EvmLog) (t : Tracing) → OnlyFirsts t → OnlyFirsts (log l t)
unfolding log
log-OnlyFirsts l t h = ground arith

call-OnlyFirsts : (inputs : CallInputs) (t : Tracing) → OnlyFirsts t → OnlyFirsts (call inputs t)
unfolding call new_trace
call-OnlyFirsts inputs t h = ground (
  arith,
  FirstsOnly-push t.inspector.traces (new_trace t.locals.counter t.locals.call_depth inputs) refl h,
)

abbrev ended : Tracing → List CallTrace → Outcome Tracing
ended t traces = ok (record {
  locals = record t.locals { call_depth = pred_usize t.locals.call_depth };
  inspector = record t.inspector { traces = traces };
})

call_end_on :
    (outcome : CallOutcome) (t : Tracing)
    → t.inspector.trace_enabled ≡ true
    → call_end outcome t
      ≡ and_then
          (finish_first (pred_usize t.locals.call_depth) outcome t.inspector.traces)
          (ended t)
unfolding call_end
call_end_on outcome t on = ground arith

call_end-OnlyFirsts :
    (outcome : CallOutcome) (t : Tracing) {t' : Tracing}
    → call_end outcome t ≡ ok t'
    → OnlyFirsts t
    → OnlyFirsts t'
unfolding call_end
call_end-OnlyFirsts outcome t {t'} e h = elim (Bool-cases t.inspector.trace_enabled) [
  | inl on ↦
      let found = and_then-eq-ok _ (ended t) (sym (call_end_on outcome t on) ∙ e) in
      subst OnlyFirsts (ok-injective found.2)
        (FirstsOnly-Finished (finish_first-inverse _ outcome t.inspector.traces found.1) h)
  | inr off ↦ ground arith
]

run_calls-OnlyFirsts :
    (c : Calls) (t : Tracing) {t' : Tracing} → run_calls c t ≡ ok t' → OnlyFirsts t → OnlyFirsts t'
unfolding run_calls
run_calls-OnlyFirsts done t e h = ground arith
run_calls-OnlyFirsts (logs l rest) t e h =
    run_calls-OnlyFirsts rest (log l t) e (log-OnlyFirsts l t h)
run_calls-OnlyFirsts (calls inputs inner outcome rest) t e h =
    let first = and_then-eq-ok (run_calls inner (call inputs t)) _ e in
    let second = and_then-eq-ok (call_end outcome first.0) _ first.2 in
    run_calls-OnlyFirsts rest second.0 second.2 (
      call_end-OnlyFirsts outcome first.0 second.1
        (run_calls-OnlyFirsts inner (call inputs t) first.1 (call-OnlyFirsts inputs t h)))

incomplete :
    (y : CallTrace) (d : ℕ) (b : Bool)
    → (not (y.depth == d && is_completed y) && b) ≡ true
    → y.depth ≡ d
    → (y.status ≡ none) × (y.return_data ≡ none)
incomplete y d b h e = ground arith

none_completed-get_elem? :
    (d : ℕ) (traces : List CallTrace) (j : ℕ) {y : CallTrace}
    → none_completed d traces ≡ true
    → get_elem? traces j ≡ some y
    → y.depth ≡ d
    → (y.status ≡ none) × (y.return_data ≡ none)
none_completed-get_elem? d [] j n g e = cc
none_completed-get_elem? d (c ∷ traces) zero {y} n g e =
    incomplete y d _
      (subst (λ x. (not (x.depth == d && is_completed x) && none_completed d traces) ≡ true)
        (some_inj g) n)
      e
none_completed-get_elem? d (c ∷ traces) (suc j) {y} n g e =
    none_completed-get_elem? d traces j (ground arith) g e

FirstsOnly-get_elem? :
    (traces : List CallTrace) (i j : ℕ) {x y : CallTrace}
    → FirstsOnly traces
    → i < j
    → get_elem? traces i ≡ some x
    → get_elem? traces j ≡ some y
    → x.depth ≡ y.depth
    → (y.status ≡ none) × (y.return_data ≡ none)
FirstsOnly-get_elem? [] i j f lt gi gj e = cc
FirstsOnly-get_elem? (c ∷ traces) zero zero f lt gi gj e = absurd (omega arith)
FirstsOnly-get_elem? (c ∷ traces) zero (suc j) f lt gi gj e =
    none_completed-get_elem? c.depth traces j f.0 gj (sym e ∙ ap (λ z. z.depth) (sym (some_inj gi)))
FirstsOnly-get_elem? (c ∷ traces) (suc i) zero f lt gi gj e = absurd (omega arith)
FirstsOnly-get_elem? (c ∷ traces) (suc i) (suc j) f lt gi gj e =
    FirstsOnly-get_elem? traces i j f.1 (omega arith) gi gj e

-- Of the traces that a run of calls from an empty list leaves, only the first of each depth has a
-- status or return data: a later call at the same depth never gets its own.
pub run_calls_siblings :
    (c : Calls) (t : Tracing) {t' : Tracing} (i j : ℕ) {x y : CallTrace}
    → t.inspector.traces ≡ []
    → run_calls c t ≡ ok t'
    → i < j
    → get_elem? t'.inspector.traces i ≡ some x
    → get_elem? t'.inspector.traces j ≡ some y
    → x.depth ≡ y.depth
    → (y.status ≡ none) × (y.return_data ≡ none)
run_calls_siblings c t i j e r =
    FirstsOnly-get_elem? _ i j (run_calls-OnlyFirsts c t r (subst FirstsOnly (sym e) tt))
