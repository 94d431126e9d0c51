-- ===== src/TinyEvm/Reaching.antt =====
-- src/lib.rs: what `deploy_helper` and `contract_call_helper` do to the database.
pub mod Accounts
pub mod Requests
use mathlib.Core.Path.{subst}
use tevm.External.Execution.{TxResult}
use tevm.External.Numbers.{Numbers}
use tevm.External.Printers.{Printers}
use tevm.ForkDb.{Context}
use tevm.ForkDb.Steps.{Reached, DbRuns, Reached-DbRuns, next, elsewhere}
use tevm.Instrument.BugInspector.{BugInspector}
use tevm.Instrument.LogInspector.{LogInspector}
use tevm.Prelude.{
  ℕ, ◌≡◌, refl, sym, List, [], ◌∷◌, Option, none, some, arith, if◌then◌else◌, Bool-cases, inl, inr,
}
use tevm.Prelude.Outcome.{Exec, raise, gets, >>=_keeps, ◌>>=◌, ◌>>◌, address_collision}
use tevm.TinyEvm.{
  TinyEvm, TransactTo, bug_inspector, bug_inspector_mut, log_inspector, log_inspector_mut, world_of,
}
use tevm.TinyEvm.Transactions.{
  clear_instrumentation, cleared_bugs, cleared_traces, collect, contract_call_helper, deploy_helper,
  is_collision, manage, nonce_of, override_create, reset_depth, set_tx,
}

module _ (cx : Context) where
  unfoldable pub InReach : TinyEvm cx → Type 0
  InReach t = Reached cx (world_of cx t)

  abbrev KeepsReach : {A : Type 0} → Exec (TinyEvm cx) A → Type 0
  KeepsReach m = (t : TinyEvm cx) → InReach t → InReach (m t).1

  -- what leaves the world as it is
  same_world-InReach : (t t' : TinyEvm cx) → world_of cx t' ≡ world_of cx t → InReach t → InReach t'
  unfolding InReach
  same_world-InReach t t' same reached = subst (Reached cx) (sym same) reached

  bug_inspector-KeepsReach : KeepsReach (bug_inspector cx)
  unfolding bug_inspector
  bug_inspector-KeepsReach t = same_world-InReach t (bug_inspector cx t).1 (ground arith)

  log_inspector-KeepsReach : KeepsReach (log_inspector cx)
  unfolding log_inspector
  log_inspector-KeepsReach t = same_world-InReach t (log_inspector cx t).1 (ground arith)

  bug_inspector_mut-KeepsReach :
      (f : BugInspector → BugInspector) → KeepsReach (bug_inspector_mut cx f)
  unfolding bug_inspector_mut
  bug_inspector_mut-KeepsReach f t =
      same_world-InReach t (bug_inspector_mut cx f t).1 (ground arith)

  log_inspector_mut-KeepsReach :
      (f : LogInspector → LogInspector) → KeepsReach (log_inspector_mut cx f)
  unfolding log_inspector_mut
  log_inspector_mut-KeepsReach f t =
      same_world-InReach t (log_inspector_mut cx f t).1 (ground arith)

  clear_instrumentation-KeepsReach : KeepsReach (clear_instrumentation cx)
  unfolding clear_instrumentation
  clear_instrumentation-KeepsReach t reached =
      >>=_keeps InReach (bug_inspector_mut cx cleared_bugs) _ t
        (bug_inspector_mut-KeepsReach cleared_bugs t reached)
        λ _. log_inspector_mut-KeepsReach cleared_traces

  reset_depth-KeepsReach : KeepsReach (reset_depth cx)
  unfolding reset_depth InReach
  reset_depth-KeepsReach t reached = next reached (elsewhere t.store 0 (world_of cx t))

  set_tx-KeepsReach :
      (caller : ℕ) (to : TransactTo) (content : List ℕ) (value : ℕ) (limit : Option ℕ)
      → KeepsReach (set_tx cx caller to content value limit)
  unfolding set_tx
  set_tx-KeepsReach caller to content value limit t =
      same_world-InReach t (set_tx cx caller to content value limit t).1 refl

  manage-KeepsReach : (address : ℕ) (addresses : List ℕ) → KeepsReach (manage cx address addresses)
  unfolding manage
  manage-KeepsReach address [] t reached = reached
  manage-KeepsReach address (a ∷ addresses) t reached = bug_inspector_mut-KeepsReach _ t reached

  override_create-KeepsReach :
      (address : ℕ) (force : Option ℕ) → KeepsReach (override_create cx address force)
  unfolding override_create
  override_create-KeepsReach address none t reached = reached
  override_create-KeepsReach address (some force) t reached =
      bug_inspector_mut-KeepsReach _ t reached

  -- The execution of a transaction runs the operations of the database.
  abbrev pub TransactRuns : Exec (TinyEvm cx) TxResult → Type 0
  TransactRuns transact_commit =
      (t : TinyEvm cx) → DbRuns cx (world_of cx t) (world_of cx (transact_commit t).1)

  module _ (n : Numbers) (p : Printers) where
    collect-KeepsReach :
        (result : TxResult) (ignored : List ℕ) → KeepsReach (collect cx n p result ignored)
    unfolding collect
    collect-KeepsReach result ignored t reached =
        >>=_keeps InReach (bug_inspector cx) _ t (bug_inspector-KeepsReach t reached) λ bugs t' h.
          >>=_keeps InReach (log_inspector cx) _ t' (log_inspector-KeepsReach t' h)
            λ tracer t'' k. k

    module _ (transact_commit : Exec (TinyEvm cx) TxResult)
        (law : TransactRuns transact_commit) where
      transact_commit-KeepsReach : KeepsReach transact_commit
      unfolding InReach
      transact_commit-KeepsReach t reached = Reached-DbRuns reached (law t)

      -- the end of a call, after the transaction
      call_end-KeepsReach :
          (contract : ℕ) (result : TxResult)
          → KeepsReach (do
            bugs ← bug_inspector cx
            manage cx contract bugs.created_addresses
            db ← gets (λ t. t.db)
            collect cx n p result db.ignored_addresses)
      call_end-KeepsReach contract result t h0 =
          >>=_keeps InReach (bug_inspector cx) _ t (bug_inspector-KeepsReach t h0) λ bugs t1 h1.
            >>=_keeps InReach (manage cx contract bugs.created_addresses) _ t1
              (manage-KeepsReach contract bugs.created_addresses t1 h1)
              λ _ t2 h2. collect-KeepsReach result t2.db.ignored_addresses t2 h2

      pub contract_call_helper-KeepsReach :
          (contract sender : ℕ) (content : List ℕ) (value : ℕ) (limit : Option ℕ)
          → KeepsReach
              (contract_call_helper cx n p transact_commit contract sender content value limit)
      unfolding contract_call_helper
      contract_call_helper-KeepsReach contract sender content value limit t h0 =
          let tx = set_tx cx sender (TransactTo.call contract) content value limit in
          >>=_keeps InReach (clear_instrumentation cx) _ t (clear_instrumentation-KeepsReach t h0)
            λ _ t1 h1.
              >>=_keeps InReach (reset_depth cx) _ t1 (reset_depth-KeepsReach t1 h1) λ _ t2 h2.
                >>=_keeps InReach tx _ t2 (set_tx-KeepsReach sender _ content value limit t2 h2)
                  λ _ t3 h3.
                    >>=_keeps InReach transact_commit _ t3 (transact_commit-KeepsReach t3 h3)
                      λ result. call_end-KeepsReach contract result

      -- the end of a deployment, after a transaction that met no contract
      deploy_end-KeepsReach :
          (address : ℕ) (result : TxResult)
          → KeepsReach (do
            bugs ← bug_inspector cx
            manage cx address bugs.created_addresses
            collect cx n p result [])
      deploy_end-KeepsReach address result t h0 =
          >>=_keeps InReach (bug_inspector cx) _ t (bug_inspector-KeepsReach t h0) λ bugs t1 h1.
            >>=_keeps InReach (manage cx address bugs.created_addresses) _ t1
              (manage-KeepsReach address bugs.created_addresses t1 h1)
              λ _. collect-KeepsReach result []

      -- the end of a deployment
      deployed-KeepsReach :
          (address : ℕ) (result : TxResult)
          → KeepsReach (
              if is_collision result then raise (address_collision address) else (do
                bugs ← bug_inspector cx
                manage cx address bugs.created_addresses
                collect cx n p result []))
      deployed-KeepsReach address result t h = elim (Bool-cases (is_collision result)) [
        | inl met ↦ rw met h
        | inr free ↦ rw free (deploy_end-KeepsReach address result t h)
      ]

      pub deploy_helper-KeepsReach :
          (owner : ℕ) (code : List ℕ) (value : ℕ) (limit force : Option ℕ)
          → KeepsReach (deploy_helper cx n p transact_commit owner code value limit force)
      unfolding deploy_helper
      deploy_helper-KeepsReach owner code value limit force t h0 =
          let no_pcs : BugInspector → BugInspector = λ ins. record ins { pcs_by_address = [] } in
          let tx = set_tx cx owner TransactTo.create code value limit in
          >>=_keeps InReach (reset_depth cx) _ t (reset_depth-KeepsReach t h0) λ _ t1 h1.
            >>=_keeps InReach (clear_instrumentation cx) _ t1
              (clear_instrumentation-KeepsReach t1 h1)
              λ _ t2 h2.
                >>=_keeps InReach (bug_inspector_mut cx no_pcs) _ t2
                  (bug_inspector_mut-KeepsReach no_pcs t2 h2)
                  λ _ t3 h3.
                    >>=_keeps InReach tx _ t3
                      (set_tx-KeepsReach owner TransactTo.create code value limit t3 h3)
                      λ _ t4 h4.
                        let address = cx.ext.create_address owner (nonce_of cx owner t4.db) in
                        >>=_keeps InReach (override_create cx address force) _ t4
                          (override_create-KeepsReach address force t4 h4)
                          λ _ t5 h5.
                            >>=_keeps InReach transact_commit _ t5
                              (transact_commit-KeepsReach t5 h5)
                              λ result. deployed-KeepsReach address result
