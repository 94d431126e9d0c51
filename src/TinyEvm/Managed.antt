-- ===== src/TinyEvm/Managed.antt =====
-- src/lib.rs: the managed addresses over a call.
use tevm.ChainInspector.{Chain}
use tevm.ChainInspector.Hooks.{Runs, Runs-fixed, fixed_in}
use tevm.ForkDb.{Context}
use tevm.External.Execution.{TxResult}
use tevm.Response.{Response}
use tevm.External.Numbers.{Numbers}
use tevm.External.Printers.{Printers}
use tevm.Instrument.BugInspector.{BugInspector}
use tevm.Instrument.BugInspector.Fixed.{fixed}
use tevm.Prelude.{
  some_inj, ℕ, ◌≡◌, refl, sym, ap, ◌∙◌, List, [], ◌∷◌, Option, none, some, arith, HashMap,
}
use tevm.Prelude.Outcome.{ok, Exec, >>=-eq-ok, gets, ◌>>=◌, ◌>>◌}
use tevm.TinyEvm.{
  TinyEvm, TransactTo, bug_inspector, bug_inspector_mut, log_inspector, log_inspector_mut,
}
use tevm.TinyEvm.Transactions.{
  clear_instrumentation, reset_depth, set_tx, manage, collect, contract_call_helper,
}

-- what equal fixed fields say of the created and the managed addresses
fixed-parts :
    (x y : Option BugInspector)
    → (elim x [ none ↦ none | some ins ↦ some (fixed ins) ])
      ≡ (elim y [ none ↦ none | some ins ↦ some (fixed ins) ])
    → ((elim x [ none ↦ none | some ins ↦ some ins.created_addresses ])
        ≡ (elim y [ none ↦ none | some ins ↦ some ins.created_addresses ]))
      × ((elim x [ none ↦ none | some ins ↦ some ins.managed_addresses ])
          ≡ (elim y [ none ↦ none | some ins ↦ some ins.managed_addresses ]))
fixed-parts none none e = (refl, refl)
fixed-parts none (some y) e = cc
fixed-parts (some x) none e = cc
fixed-parts (some x) (some y) e = (ap (λ f. some f.0) (some_inj e), ap (λ f. some f.1) (some_inj e))

module _ (cx : Context) where
  abbrev pub chain_of : TinyEvm cx → Chain
  chain_of t = record { locals = t.locals; inspectors = t.inspectors }

  -- A transaction changes the inspectors by their hooks alone.
  pub record RunsHooks (transact_commit : Exec (TinyEvm cx) TxResult) : Type 0 where
    pub runs :
        (t : TinyEvm cx) {r : TxResult} {t' : TinyEvm cx}
        → transact_commit t ≡ (ok r, t')
        → Runs cx.ext (chain_of t) (chain_of t')

  abbrev pub managed_in : TinyEvm cx → Option (HashMap (List ℕ))
  managed_in t = elim t.inspectors.bug_inspector [
    | none ↦ none
    | some ins ↦ some ins.managed_addresses
  ]

  abbrev created_in : TinyEvm cx → Option (List ℕ)
  created_in t = elim t.inspectors.bug_inspector [
    | none ↦ none
    | some ins ↦ some ins.created_addresses
  ]

  clear_instrumentation-created :
      (t : TinyEvm cx) {u : Unit {0}} {t' : TinyEvm cx}
      → clear_instrumentation cx t ≡ (ok u, t')
      → (created_in t' ≡ some []) × (managed_in t' ≡ managed_in t)
  unfolding clear_instrumentation bug_inspector_mut log_inspector_mut
  clear_instrumentation-created t e = (ground (arith, e), ground (arith, e))

  inspectors-reset_depth :
      (t : TinyEvm cx) {u : Unit {0}} {t' : TinyEvm cx}
      → reset_depth cx t ≡ (ok u, t')
      → t'.inspectors ≡ t.inspectors
  unfolding reset_depth
  inspectors-reset_depth t e = ap (λ p. p.1.inspectors) (sym e)

  inspectors-set_tx :
      (t : TinyEvm cx) (c : ℕ) (to : TransactTo) (bytes : List ℕ) (v : ℕ) (l : Option ℕ)
      {u : Unit {0}} {t' : TinyEvm cx}
      → set_tx cx c to bytes v l t ≡ (ok u, t')
      → t'.inspectors ≡ t.inspectors
  unfolding set_tx
  inspectors-set_tx t c to bytes v l e = ap (λ p. p.1.inspectors) (sym e)

  bug_inspector-created :
      (t : TinyEvm cx) {bugs : BugInspector} {t' : TinyEvm cx}
      → bug_inspector cx t ≡ (ok bugs, t')
      → (t' ≡ t) × (created_in t ≡ some bugs.created_addresses)
  unfolding bug_inspector
  bug_inspector-created t e = (ground (arith, e), ground (arith, e))

  collect-keeps :
      (n : Numbers) (p : Printers) (t : TinyEvm cx) (r : TxResult) (ignored : List ℕ) {x : Response}
      {t' : TinyEvm cx}
      → collect cx n p r ignored t ≡ (ok x, t')
      → t' ≡ t
  unfolding collect bug_inspector log_inspector
  collect-keeps n p t r ignored e = ground (arith, e)

  manage_none :
      (contract : ℕ) (addresses : List ℕ) (t : TinyEvm cx) {u : Unit {0}} {t' : TinyEvm cx}
      → addresses ≡ []
      → manage cx contract addresses t ≡ (ok u, t')
      → t' ≡ t
  unfolding manage
  manage_none contract [] t h e = ground (arith, e)
  manage_none contract (a ∷ addresses) t h e = cc

  -- after the transaction: no address was created, so none is managed
  finish_keeps :
      (n : Numbers) (p : Printers) (contract : ℕ) (result : TxResult) (t : TinyEvm cx)
      {r : Response} {t' : TinyEvm cx}
      → created_in t ≡ some []
      → (do
        bugs ← bug_inspector cx
        manage cx contract bugs.created_addresses
        db ← gets (λ u. u.db)
        collect cx n p result db.ignored_addresses)
          t
        ≡ (ok r, t')
      → t' ≡ t
  finish_keeps n p contract result t none_created e =
      let (bugs, t1, e1, k1) = >>=-eq-ok (bug_inspector cx) _ t e in
      let (_, t2, e2, k2) = >>=-eq-ok (manage cx contract bugs.created_addresses) _ t1 k1 in
      let (same, created) = bug_inspector-created t e1 in
      let kept : t2 ≡ t1 =
        manage_none contract bugs.created_addresses t1 (some_inj (sym created ∙ none_created)) e2 in
      collect-keeps n p t2 result t2.db.ignored_addresses k2 ∙ kept ∙ same

  -- A call manages no address, whatever contracts its transaction creates: if the transaction
  -- changes the inspectors by their hooks alone, a call that returns leaves the managed addresses as
  -- they were.
  pub contract_call_manages_none :
      (n : Numbers) (p : Printers) (transact_commit : Exec (TinyEvm cx) TxResult)
      (contract sender : ℕ) (content : List ℕ) (value : ℕ) (limit : Option ℕ) (t : TinyEvm cx)
      {r : Response} {t' : TinyEvm cx}
      → RunsHooks transact_commit
      → contract_call_helper cx n p transact_commit contract sender content value limit t
        ≡ (ok r, t')
      → managed_in t' ≡ managed_in t
  unfolding contract_call_helper
  contract_call_manages_none n p transact_commit contract sender content value limit t {r} {t'} law
        e =
      let (_, t1, e1, k1) = >>=-eq-ok (clear_instrumentation cx) _ t e in
      let (_, t2, e2, k2) = >>=-eq-ok (reset_depth cx) _ t1 k1 in
      let (_, t3, e3, k3) =
        >>=-eq-ok (set_tx cx sender (TransactTo.call contract) content value limit) _ t2 k2 in
      let (result, t4, e4, k4) = >>=-eq-ok transact_commit _ t3 k3 in
      let (created, managed) = clear_instrumentation-created t e1 in
      let inspectors : t3.inspectors ≡ t1.inspectors =
        inspectors-set_tx t2 sender (TransactTo.call contract) content value limit e3
        ∙ inspectors-reset_depth t1 e2 in
      let hooks : fixed_in (chain_of t4) ≡ fixed_in (chain_of t3) =
        Runs-fixed cx.ext (law.runs t3 e4) in
      let (created', managed') =
        fixed-parts t4.inspectors.bug_inspector t3.inspectors.bug_inspector hooks in
      let none_created : created_in t4 ≡ some [] =
        created'
        ∙ ap (λ x. elim x.bug_inspector [ none ↦ none | some ins ↦ some ins.created_addresses ])
            inspectors
        ∙ created in
      ap managed_in (finish_keeps n p contract result t4 none_created k4)
      ∙ managed'
      ∙ ap (λ x. elim x.bug_inspector [ none ↦ none | some ins ↦ some ins.managed_addresses ])
          inspectors
      ∙ managed
