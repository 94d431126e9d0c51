-- ===== src/TinyEvm/Errors.antt =====
-- src/lib.rs: how `deploy_helper` and `contract_call_helper` end with an error.
use tevm.External.Execution.{TxResult}
use tevm.External.Numbers.{Numbers}
use tevm.External.Printers.{Printers}
use tevm.ForkDb.{Context}
use tevm.Instrument.BugInspector.{BugInspector}
use tevm.Prelude.{
  ℕ, ◌≡◌, refl, sym, ap, ◌∙◌, List, [], ◌∷◌, Option, none, some, Bool-cases, arith, inl, inr,
  if◌then◌else◌,
}
use tevm.Prelude.Outcome.{
  ok≢err, Outcome, Error, ok, err, panic, continue, Exec, raise, ◌>>=◌, ◌>>◌, address_collision,
}
use tevm.TinyEvm.{
  TinyEvm, TransactTo, bug_inspector, bug_inspector_mut, log_inspector, log_inspector_mut,
}
use tevm.TinyEvm.Transactions.{
  clear_instrumentation, reset_depth, set_tx, manage, collect, override_create,
  contract_call_helper, deploy_helper, is_collision, nonce_of,
}

-- The errors of a computation satisfy a predicate.
abbrev pub ErrsAre : {S A : Type 0} → (Error → Type 0) → Exec S A → Type 0
ErrsAre {S} Q m = (s : S) (e : Error) (s' : S) → m s ≡ (err e, s') → Q e

-- It returns or panics.
abbrev pub NeverErrs : {S A : Type 0} → Exec S A → Type 0
NeverErrs m = ErrsAre (λ _. ⊥) m

abbrev pub IsCollision : Error → Type 0
IsCollision e = (address : ℕ) × (e ≡ address_collision address)

err_inj : {A : Type 0} {e e' : Error} → ◌≡◌ {A = Outcome A} (err e) (err e') → e ≡ e'
err_inj h = cc

panic≢err : {A : Type 0} {e : Error} → ◌≡◌ {A = Outcome A} panic (err e) → ⊥
panic≢err h = cc

module _ {S A B Q : Type 0} where
  pub continue-errs :
      (r : Outcome A) (f : A → Exec S B) (s : S) (e : Error) {s' : S}
      → continue r f s ≡ (err e, s')
      → (◌≡◌ {A = Outcome A × S} (r, s) (err e, s') → Q)
      → ((a : A) → r ≡ ok a → f a s ≡ (err e, s') → Q)
      → Q
  continue-errs (ok a) f s e h first rest = rest a refl h
  continue-errs (err e') f s e h first rest =
      first (λ i. (err (err_inj (ap (λ x. x.0) h) i), (h i).1))
  continue-errs panic f s e h first rest = absurd (panic≢err (ap (λ x. x.0) h))

  -- An error of a bind is one of its first part or one of the rest.
  pub >>=-errs :
      (m : Exec S A) (f : A → Exec S B) (s : S) (e : Error) {s' : S}
      → (m >>= f) s ≡ (err e, s')
      → (m s ≡ (err e, s') → Q)
      → ((a : A) (t : S) → m s ≡ (ok a, t) → f a t ≡ (err e, s') → Q)
      → Q
  >>=-errs m f s e h first rest =
      continue-errs (m s).0 f (m s).1 e h first (λ a k. rest a (m s).1 (λ i. (k i, (m s).1)))

module _ (cx : Context) (n : Numbers) (p : Printers) (Q : Error → Type 0) where
  clear_instrumentation-ErrsAre : ErrsAre Q (clear_instrumentation cx)
  unfolding clear_instrumentation bug_inspector_mut log_inspector_mut
  clear_instrumentation-ErrsAre t e t' h = ground arith

  reset_depth-ErrsAre : ErrsAre Q (reset_depth cx)
  unfolding reset_depth
  reset_depth-ErrsAre t e t' h = absurd (ok≢err (ap (λ x. x.0) h))

  set_tx-ErrsAre :
      (caller : ℕ) (to : TransactTo) (content : List ℕ) (value : ℕ) (limit : Option ℕ)
      → ErrsAre Q (set_tx cx caller to content value limit)
  unfolding set_tx
  set_tx-ErrsAre caller to content value limit t e t' h = absurd (ok≢err (ap (λ x. x.0) h))

  bug_inspector-ErrsAre : ErrsAre Q (bug_inspector cx)
  unfolding bug_inspector
  bug_inspector-ErrsAre t e t' h = ground arith

  bug_inspector_mut-ErrsAre : (f : BugInspector → BugInspector) → ErrsAre Q (bug_inspector_mut cx f)
  unfolding bug_inspector_mut
  bug_inspector_mut-ErrsAre f t e t' h = ground arith

  manage-ErrsAre : (a : ℕ) (created : List ℕ) → ErrsAre Q (manage cx a created)
  unfolding manage
  manage-ErrsAre a [] t e t' h = cc
  manage-ErrsAre a (b ∷ created) t e t' h = bug_inspector_mut-ErrsAre _ t e t' h

  override_create-ErrsAre : (a : ℕ) (force : Option ℕ) → ErrsAre Q (override_create cx a force)
  unfolding override_create
  override_create-ErrsAre a none t e t' h = cc
  override_create-ErrsAre a (some b) t e t' h = bug_inspector_mut-ErrsAre _ t e t' h

  collect-ErrsAre : (r : TxResult) (ignored : List ℕ) → ErrsAre Q (collect cx n p r ignored)
  unfolding collect bug_inspector log_inspector
  collect-ErrsAre r ignored t e t' h = ground arith

module _ (cx : Context) (n : Numbers) (p : Printers) where
  landed-NeverErrs :
      (derived : ℕ) (result : TxResult) (Q : Error → Type 0)
      → ErrsAre Q (do
        bugs ← bug_inspector cx
        manage cx derived bugs.created_addresses
        collect cx n p result [])
  landed-NeverErrs derived result Q t e t' h =
      >>=-errs (bug_inspector cx) _ t e h (bug_inspector-ErrsAre cx n p Q t e t') λ bugs t1 _ h1.
        >>=-errs (manage cx derived bugs.created_addresses) _ t1 e h1
          (manage-ErrsAre cx n p Q derived bugs.created_addresses t1 e t')
          λ _ t2 _ h2. collect-ErrsAre cx n p Q result [] t2 e t' h2

  -- what `deploy_helper` does after the transaction
  after_deployment :
      (derived : ℕ) (result : TxResult)
      → ErrsAre IsCollision (
          if is_collision result then raise (address_collision derived) else (do
            bugs ← bug_inspector cx
            manage cx derived bugs.created_addresses
            collect cx n p result []))
  after_deployment derived result t e t' h = elim (Bool-cases (is_collision result)) [
    | inl collides ↦ (derived, ground (arith, collides, h))
    | inr lands ↦ landed-NeverErrs derived result IsCollision t e t' (
        ap
          (λ b.
            (if b then raise (address_collision derived) else (do
              bugs ← bug_inspector cx
              manage cx derived bugs.created_addresses
              collect cx n p result []))
              t)
          (sym lands)
        ∙ h)
  ]

module _ (cx : Context) (n : Numbers) (p : Printers) (transact_commit : Exec (TinyEvm cx) TxResult)
    (returns : NeverErrs transact_commit) where
  pub contract_call_helper-NeverErrs :
      (contract sender : ℕ) (content : List ℕ) (value : ℕ) (limit : Option ℕ)
      → NeverErrs (contract_call_helper cx n p transact_commit contract sender content value limit)
  unfolding contract_call_helper
  contract_call_helper-NeverErrs contract sender content value limit t e t' h =
      let Q : Error → Type 0 = λ _. ⊥ in
      >>=-errs (clear_instrumentation cx) _ t e h (clear_instrumentation-ErrsAre cx n p Q t e t')
        λ _ t1 _ h1.
          >>=-errs (reset_depth cx) _ t1 e h1 (reset_depth-ErrsAre cx n p Q t1 e t') λ _ t2 _ h2.
            >>=-errs (set_tx cx sender (TransactTo.call contract) content value limit) _ t2 e h2
              (set_tx-ErrsAre cx n p Q sender (TransactTo.call contract) content value limit t2 e
                t')
              λ _ t3 _ h3. >>=-errs transact_commit _ t3 e h3 (returns t3 e t') λ result t4 _ h4.
                >>=-errs (bug_inspector cx) _ t4 e h4 (bug_inspector-ErrsAre cx n p Q t4 e t')
                  λ bugs t5 _ h5.
                    >>=-errs (manage cx contract bugs.created_addresses) _ t5 e h5
                      (manage-ErrsAre cx n p Q contract bugs.created_addresses t5 e t')
                      λ _ t6 _ h6.
                        collect-ErrsAre cx n p Q result t6.db.ignored_addresses t6 e t' h6

  pub deploy_helper-IsCollision :
      (owner : ℕ) (bytecode : List ℕ) (value : ℕ) (limit force : Option ℕ)
      → ErrsAre IsCollision (deploy_helper cx n p transact_commit owner bytecode value limit force)
  unfolding deploy_helper
  deploy_helper-IsCollision owner bytecode value limit force t e t' h =
      let Q : Error → Type 0 = IsCollision in
      let derived : TinyEvm cx → ℕ = λ u. cx.ext.create_address owner (nonce_of cx owner u.db) in
      >>=-errs (reset_depth cx) _ t e h (reset_depth-ErrsAre cx n p Q t e t') λ _ t1 _ h1.
        >>=-errs (clear_instrumentation cx) _ t1 e h1
          (clear_instrumentation-ErrsAre cx n p Q t1 e t')
          λ _ t2 _ h2.
            >>=-errs (bug_inspector_mut cx _) _ t2 e h2
              (bug_inspector_mut-ErrsAre cx n p Q _ t2 e t')
              λ _ t3 _ h3.
                >>=-errs (set_tx cx owner TransactTo.create bytecode value limit) _ t3 e h3
                  (set_tx-ErrsAre cx n p Q owner TransactTo.create bytecode value limit t3 e t')
                  λ _ t4 _ h4.
                    >>=-errs (override_create cx (derived t4) force) _ t4 e h4
                      (override_create-ErrsAre cx n p Q (derived t4) force t4 e t')
                      λ _ t5 _ h5.
                        >>=-errs transact_commit _ t5 e h5 (λ k. absurd (returns t5 e t' k))
                          λ result t6 _ h6. after_deployment cx n p (derived t4) result t6 e t' h6
