-- ===== src/TinyEvm/Steps.antt =====
-- src/lib.rs: the requests on accounts, in any order, and what they do to the database.
pub mod CodeRead
use mathlib.Core.Path.{subst}
use tevm.External.Execution.{TxResult}
use tevm.External.Numbers.{Numbers}
use tevm.External.Printers.{Printers}
use tevm.ForkDb
use tevm.ForkDb.{Context, DbAccount, ForkDb, World}
use tevm.ForkDb.Accounts
use tevm.ForkDb.Contracts.{MatchesCode}
use tevm.ForkDb.Database
use tevm.ForkDb.Database.{on_db}
use tevm.ForkDb.Steps.{
  DbStep, Reached, basic, insert_account_storage, replace_account_storage, insert_account_info,
  set_fork_enabled, remove, set_balance, copy, elsewhere, next, DbRuns, Reached-DbRuns,
}
use tevm.Prelude.{
  ℕ, ◌≡◌, refl, sym, ap, ◌∙◌, Bool, String, List, [], ◌∷◌, Option, none, some, arith, inl, inr,
  Option-cases, Bool-cases, HashMap, some_inj, if◌then◌else◌, if_both,
}
use tevm.Prelude.Maps
use tevm.Prelude.Outcome.{Outcome, ok, err, panic, Exec, continue, lift}
use tevm.TinyEvm.{TinyEvm, bug_inspector_mut, db_mut, run_db, world_of}
use tevm.TinyEvm.Reaching.{
  InReach, TransactRuns, deploy_helper-KeepsReach, contract_call_helper-KeepsReach,
}
use tevm.TinyEvm.Reaching.Accounts.{
  set_balance_of-Reached, clone_in-Reached, info_with_code-MatchesCode, reset_account-Reached,
  db-nuke_account, run_db-Reached, read-Reached, basic-Reached,
}
use tevm.TinyEvm.Reaching.Requests.{
  deploy-InReach, deterministic_deploy-InReach, contract_call-InReach,
}
use tevm.TinyEvm.Requests as Calls
use tevm.External.Parsers.{Parsers}
use tevm.External.Numbers.{BigInt}
use tevm.TinyEvm.Accounts as Requests
use tevm.TinyEvm.Accounts.{
  info_of_balance, info_with_code, code_of, balance_of, set_balance_of, clone_in, default_balance,
}

-- One request and the state after it, however it ends.
pub data Requested (cx : Context) (n : Numbers) (p : Printers) (parsers : Parsers)
    (transact_commit : Exec (TinyEvm cx) TxResult) : TinyEvm cx → TinyEvm cx → Type 0 where
  set_account_balance :
      (address balance : ℕ) (t : TinyEvm cx)
      → Requested cx n p parsers transact_commit t
          (Requests.set_account_balance cx address balance t).1
  reset_account :
      (addr : ℕ) (t : TinyEvm cx)
      → Requested cx n p parsers transact_commit t (Requests.reset_account cx addr t).1
  reset_storage :
      (addr : ℕ) (t : TinyEvm cx)
      → Requested cx n p parsers transact_commit t (Requests.reset_storage cx addr t).1
  nuke_account :
      (addr : ℕ) (t : TinyEvm cx)
      → Requested cx n p parsers transact_commit t (Requests.nuke_account cx addr t).1
  set_code_by_address :
      (addr : ℕ) (code : List ℕ) (t : TinyEvm cx)
      → Requested cx n p parsers transact_commit t (Requests.set_code_by_address cx addr code t).1
  get_code_by_address :
      (addr : ℕ) (t : TinyEvm cx)
      → Requested cx n p parsers transact_commit t (Requests.get_code_by_address cx addr t).1
  get_eth_balance :
      (addr : ℕ) (t : TinyEvm cx)
      → Requested cx n p parsers transact_commit t (Requests.get_eth_balance cx addr t).1
  set_storage_by_address :
      (addr index value : ℕ) (t : TinyEvm cx)
      → Requested cx n p parsers transact_commit t
          (Requests.set_storage_by_address cx addr index value t).1
  clone_account :
      (from to : ℕ) (delete : Bool) (t : TinyEvm cx)
      → Requested cx n p parsers transact_commit t (Requests.clone_account cx from to delete t).1
  toggle_enable_fork :
      (enabled : Bool) (t : TinyEvm cx)
      → Requested cx n p parsers transact_commit t (Requests.toggle_enable_fork cx enabled t).1
  deploy :
      (code : String) (owner : Option String) (t : TinyEvm cx)
      → Requested cx n p parsers transact_commit t
          (Calls.deploy cx n p parsers transact_commit code owner t).1
  deterministic_deploy :
      (code : String) (salt owner content : Option String) (value init_value : Option BigInt)
      (deploy_to_address : Option String) (t : TinyEvm cx)
      → Requested cx n p parsers transact_commit t
          (Calls.deterministic_deploy cx n p parsers transact_commit code salt owner content value
            init_value deploy_to_address t).1
  contract_call :
      (contract : String) (sender content : Option String) (value : Option BigInt) (t : TinyEvm cx)
      → Requested cx n p parsers transact_commit t
          (Calls.contract_call cx n p parsers transact_commit contract sender content value t).1

-- any number of requests
pub data RequestRuns (cx : Context) (n : Numbers) (p : Printers) (parsers : Parsers)
    (transact_commit : Exec (TinyEvm cx) TxResult) : TinyEvm cx → TinyEvm cx → Type 0 where
  idle : (t : TinyEvm cx) → RequestRuns cx n p parsers transact_commit t t
  after :
      {a b c : TinyEvm cx}
      → RequestRuns cx n p parsers transact_commit a b
      → Requested cx n p parsers transact_commit b c
      → RequestRuns cx n p parsers transact_commit a c

module _ (cx : Context) where
  module _ (n : Numbers) (p : Printers) (parsers : Parsers)
      (transact_commit : Exec (TinyEvm cx) TxResult) (law : TransactRuns cx transact_commit) where
    Requested-Reached :
        {t t' : TinyEvm cx}
        → Requested cx n p parsers transact_commit t t'
        → Reached cx (world_of cx t)
        → Reached cx (world_of cx t')
    unfolding Requests.set_account_balance Requests.reset_storage Requests.set_code_by_address
        Requests.get_code_by_address Requests.get_eth_balance Requests.set_storage_by_address
        Requests.clone_account Requests.toggle_enable_fork db_mut InReach
    Requested-Reached (set_account_balance a balance t) reached =
        set_balance_of-Reached cx a balance (world_of cx t) reached
    Requested-Reached (reset_account a t) reached = reset_account-Reached cx a t reached
    Requested-Reached (reset_storage a t) reached =
        run_db-Reached cx (Database.replace_account_storage cx a []) t
          (next reached (replace_account_storage a [] (world_of cx t)))
    Requested-Reached (nuke_account a t) reached =
        subst (Reached cx) (sym (db-nuke_account cx a t)) (next reached (remove a (world_of cx t)))
    Requested-Reached (set_code_by_address a code t) reached =
        let old = Maps.get t.db.accounts a in
        next reached (
          insert_account_info a (info_with_code cx code old) (world_of cx t)
            (info_with_code-MatchesCode cx code old))
    Requested-Reached (get_code_by_address a t) reached =
        let r = run_db cx (Database.basic cx a) t in
        read-Reached cx r.0 (λ account. ok (code_of account)) r.1 (basic-Reached cx a t reached)
    Requested-Reached (get_eth_balance a t) reached =
        let r = run_db cx (Database.basic cx a) t in
        read-Reached cx r.0 (λ account. ok (balance_of cx account)) r.1
          (basic-Reached cx a t reached)
    Requested-Reached (set_storage_by_address a index value t) reached =
        run_db-Reached cx (Database.insert_account_storage cx a index value) t
          (next reached (insert_account_storage a index value (world_of cx t)))
    Requested-Reached (clone_account from to delete t) reached =
        clone_in-Reached cx from to delete (world_of cx t) reached
    Requested-Reached (toggle_enable_fork enabled t) reached =
        next reached (set_fork_enabled enabled (world_of cx t))
    Requested-Reached (deploy code owner t) reached =
        deploy-InReach cx n p parsers transact_commit law code owner t reached
    Requested-Reached (deterministic_deploy code salt owner content value init_value to t) reached =
        deterministic_deploy-InReach cx n p parsers transact_commit law code salt owner content
          value init_value to t reached
    Requested-Reached (contract_call contract sender content value t) reached =
        contract_call-InReach cx n p parsers transact_commit law contract sender content value t
          reached

    -- Whatever is requested, in any order, the database stays in a state that its own operations reach.
    pub RequestRuns-Reached :
        {t t' : TinyEvm cx}
        → RequestRuns cx n p parsers transact_commit t t'
        → Reached cx (world_of cx t)
        → Reached cx (world_of cx t')
    RequestRuns-Reached (idle t) reached = reached
    RequestRuns-Reached (after runs request) reached =
        Requested-Reached request (RequestRuns-Reached runs reached)
