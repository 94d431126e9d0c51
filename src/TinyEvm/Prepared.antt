-- ===== src/TinyEvm/Prepared.antt =====
-- src/lib.rs: the state in which `contract_call_helper` runs the transaction.
use mathlib.Core.Path.{subst}
use tevm.ForkDb.{Context}
use tevm.Instrument.Bug.{default_heuristics}
use tevm.Instrument.BugInspector.{BugInspector}
use tevm.Instrument.LogInspector.{LogInspector}
use tevm.Prelude.{
  ℕ, ◌≡◌, refl, ap, ◌∙◌, List, [], Option, some, arith, Option-cases, inl, inr, unwrap_or,
}
use tevm.Prelude.Outcome.{ok, >>=-eq-ok}
use tevm.TinyEvm.{TinyEvm, TransactTo, bug_inspector_mut, log_inspector_mut}
use tevm.TinyEvm.Transactions.{
  clear_instrumentation, cleared_bugs, cleared_traces, reset_depth, set_tx,
}

module _ (cx : Context) where
  -- The instrumentation is empty and the call depth 0, the transaction is the one that was asked
  -- for, and the database and the cache are those of `t`.
  abbrev pub Prepared : TinyEvm cx → ℕ → TransactTo → List ℕ → ℕ → Option ℕ → TinyEvm cx → Type 0
  Prepared t caller to content value limit before =
      ((bugs : BugInspector) × (before.inspectors.bug_inspector ≡ some bugs)
        × (bugs.bug_data ≡ [])
        × (bugs.created_addresses ≡ [])
        × (bugs.heuristics ≡ default_heuristics))
      × ((tracer : LogInspector) × (before.inspectors.log_inspector ≡ some tracer)
          × (tracer.traces ≡ [])
          × (tracer.logs ≡ []))
      × (before.locals.call_depth ≡ 0)
      × (before.db ≡ t.db)
      × (before.store ≡ t.store)
      × (before.tx.caller ≡ caller)
      × (before.tx.transact_to ≡ to)
      × (before.tx.content ≡ content)
      × (before.tx.value ≡ value)
      × (before.tx.gas_limit ≡ unwrap_or limit t.tx_gas_limit)

  -- `t` with other inspectors
  abbrev with_bugs : TinyEvm cx → BugInspector → TinyEvm cx
  with_bugs t bugs = record t { inspectors = record t.inspectors { bug_inspector = some bugs } }

  abbrev with_tracer : TinyEvm cx → LogInspector → TinyEvm cx
  with_tracer t tracer = record t {
    inspectors = record t.inspectors { log_inspector = some tracer };
  }

  pub bug_inspector_mut-ok :
      (f : BugInspector → BugInspector) (t : TinyEvm cx) {u : Unit {0}} {t' : TinyEvm cx}
      → bug_inspector_mut cx f t ≡ (ok u, t')
      → (bugs : BugInspector) × (t.inspectors.bug_inspector ≡ some bugs)
        × (with_bugs t (f bugs) ≡ t')
  unfolding bug_inspector_mut
  bug_inspector_mut-ok f t e = elim (Option-cases t.inspectors.bug_inspector) [
    | inl absent ↦ absurd (ground (arith, absent, e))
    | inr (bugs, held) ↦ (bugs, held, ground (arith, held, e))
  ]

  log_inspector_mut-ok :
      (f : LogInspector → LogInspector) (t : TinyEvm cx) {u : Unit {0}} {t' : TinyEvm cx}
      → log_inspector_mut cx f t ≡ (ok u, t')
      → (tracer : LogInspector) × (t.inspectors.log_inspector ≡ some tracer)
        × (with_tracer t (f tracer) ≡ t')
  unfolding log_inspector_mut
  log_inspector_mut-ok f t e = elim (Option-cases t.inspectors.log_inspector) [
    | inl absent ↦ absurd (ground (arith, absent, e))
    | inr (tracer, held) ↦ (tracer, held, ground (arith, held, e))
  ]

  clear_instrumentation-ok :
      (t : TinyEvm cx) {u : Unit {0}} {t' : TinyEvm cx}
      → clear_instrumentation cx t ≡ (ok u, t')
      → (bugs : BugInspector) × (tracer : LogInspector) × (with_tracer
            (with_bugs t (cleared_bugs bugs))
            (cleared_traces tracer)
          ≡ t')
  unfolding clear_instrumentation
  clear_instrumentation-ok t e =
      let (_, t1, e1, k1) = >>=-eq-ok (bug_inspector_mut cx cleared_bugs) _ t e in
      let (bugs, _, same1) = bug_inspector_mut-ok cleared_bugs t e1 in
      let (tracer, _, same2) = log_inspector_mut-ok cleared_traces t1 k1 in
      (bugs, tracer, ap (λ x. with_tracer x (cleared_traces tracer)) same1 ∙ same2)

  -- `contract_call_helper` prepares the transaction before it runs it.
  pub call-Prepared :
      (sender : ℕ) (to : TransactTo) (content : List ℕ) (value : ℕ) (limit : Option ℕ)
      (t : TinyEvm cx) {u u' u'' : Unit {0}} {t1 t2 t3 : TinyEvm cx}
      → clear_instrumentation cx t ≡ (ok u, t1)
      → reset_depth cx t1 ≡ (ok u', t2)
      → set_tx cx sender to content value limit t2 ≡ (ok u'', t3)
      → Prepared t sender to content value limit t3
  unfolding reset_depth set_tx
  call-Prepared sender to content value limit t {t1 = t1} {t2} {t3} e1 e2 e3 =
      let (bugs, tracer, same1) = clear_instrumentation-ok t e1 in
      let ready : TinyEvm cx → TinyEvm cx = λ x. record x {
        tx = record x.tx {
          caller = sender;
          transact_to = to;
          content = content;
          value = value;
          gas_limit = unwrap_or limit x.tx_gas_limit;
        };
      } in
      let shallow : TinyEvm cx → TinyEvm cx =
        λ x. record x { locals = record x.locals { call_depth = 0 } } in
      let cleared = with_tracer (with_bugs t (cleared_bugs bugs)) (cleared_traces tracer) in
      let same : ready (shallow cleared) ≡ t3 =
        ap (λ x. ready (shallow x)) same1 ∙ ap ready (ap (λ x. x.1) e2) ∙ ap (λ x. x.1) e3 in
      subst (Prepared t sender to content value limit) same (
        (cleared_bugs bugs, refl, refl, refl, refl),
        (cleared_traces tracer, refl, refl, refl),
        refl,
        refl,
        refl,
        refl,
        refl,
        refl,
        refl,
        refl,
      )
