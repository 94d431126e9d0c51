-- ===== src/TinyEvm.antt =====
-- src/lib.rs: `TinyEVM`, its state and the accessors that unwrap it. The operations are in the
-- children.
pub mod Accounts
pub mod Snapshots
pub mod Transactions
pub mod AccountLaws
pub mod SnapshotLaws
pub mod Isolation
pub mod Environment
pub mod Config
pub mod Construction
pub mod Managed
pub mod Requests
pub mod Wrappers
pub mod RoundTrips
pub mod Errors
pub mod Refusals
pub mod Funding
pub mod Prepared
pub mod Reports
pub mod Reaching
pub mod Steps
use tevm.ChainInspector.{ChainInspector}
use tevm.ForkDb.{Context, DbAccount, DbWorld, ForkDb, World}
use tevm.Instrument.Bug.{Bug, Heuristics}
use tevm.Instrument.BugInspector.{BugInspector}
use tevm.Instrument.LogInspector.{LogInspector, Locals}
use tevm.Prelude.{ℕ, List, Option, none, some, HashMap}
use tevm.Prelude.Outcome.{Outcome, ok, panic, Exec, pure, ◌>>=◌}

-- revm's `TransactTo`, and the fields of `TxEnv` that the source writes
pub data TransactTo : Type 0 where
  create : TransactTo
  call : ℕ → TransactTo

pub record TxEnv : Type 0 where
  pub caller : ℕ
  pub transact_to : TransactTo
  pub content : List ℕ
  pub value : ℕ
  pub gas_limit : ℕ
  pub gas_price : ℕ

-- the fields of `BlockEnv` that the source reads and writes
pub record BlockEnv : Type 0 where
  pub number : ℕ
  pub coinbase : ℕ
  pub timestamp : ℕ
  pub difficulty : ℕ
  pub gas_limit : ℕ
  pub basefee : ℕ

-- `TinyEVM` with what it runs on: `exe`, which every constructor fills, is given by the parts of
-- revm's `Evm` that the source uses (the database, the inspectors and the environment), and
-- beside it stand the storage behind the cache and the thread-local cells.
pub record TinyEvmOf (Store : Type 0) : Type 0 where
  pub db : ForkDb
  pub store : Store
  pub locals : Locals
  pub inspectors : ChainInspector
  pub tx : TxEnv
  pub block : BlockEnv
  pub chain_id : ℕ
  pub owner : ℕ
  pub tx_gas_limit : ℕ
  pub snapshots : HashMap DbAccount
  pub global_snapshot : HashMap ForkDb

abbrev pub TinyEvm : Context → Type 0
TinyEvm cx = TinyEvmOf cx.cache.Store

module _ (cx : Context) where
  -- `bug_inspector()`
  unfoldable pub bug_inspector : Exec (TinyEvm cx) BugInspector
  bug_inspector t = elim t.inspectors.bug_inspector [ none ↦ (panic, t) | some ins ↦ (ok ins, t) ]

  -- `bug_inspector_mut()` and a write
  unfoldable pub bug_inspector_mut : (BugInspector → BugInspector) → Exec (TinyEvm cx) (Unit {0})
  bug_inspector_mut f t = elim t.inspectors.bug_inspector [
    | none ↦ (panic, t)
    | some ins ↦
        (ok tt, record t { inspectors = record t.inspectors { bug_inspector = some (f ins) } })
  ]

  -- `log_inspector()`
  unfoldable pub log_inspector : Exec (TinyEvm cx) LogInspector
  log_inspector t = elim t.inspectors.log_inspector [ none ↦ (panic, t) | some ins ↦ (ok ins, t) ]

  -- `log_inspector_mut()` and a write
  unfoldable pub log_inspector_mut : (LogInspector → LogInspector) → Exec (TinyEvm cx) (Unit {0})
  log_inspector_mut f t = elim t.inspectors.log_inspector [
    | none ↦ (panic, t)
    | some ins ↦
        (ok tt, record t { inspectors = record t.inspectors { log_inspector = some (f ins) } })
  ]

  -- `db_mut()` and a write
  unfoldable pub db_mut : (ForkDb → ForkDb) → Exec (TinyEvm cx) (Unit {0})
  db_mut f t = (ok tt, record t { db = f t.db })

  abbrev pub world_of : TinyEvm cx → World cx
  world_of t = record { db = t.db; store = t.store; call_depth = t.locals.call_depth }

  abbrev pub with_world : TinyEvm cx → World cx → TinyEvm cx
  with_world t w = record t { db = w.db; store = w.store }

  -- a method of the database, with the cache and the call depth
  unfoldable pub run_db : {A : Type 0} → Exec (World cx) A → Exec (TinyEvm cx) A
  run_db m t = let (r, w) = m (world_of t) in (r, with_world t w)

  -- `bug_data()`, `heuristics()`, `pcs_by_address()`, `created_addresses()`
  unfoldable pub bug_data : Exec (TinyEvm cx) (List Bug)
  bug_data = do bugs ← bug_inspector; pure bugs.bug_data

  unfoldable pub heuristics : Exec (TinyEvm cx) Heuristics
  heuristics = do bugs ← bug_inspector; pure bugs.heuristics

  unfoldable pub pcs_by_address : Exec (TinyEvm cx) (HashMap (List ℕ))
  pcs_by_address = do bugs ← bug_inspector; pure bugs.pcs_by_address

  unfoldable pub created_addresses : Exec (TinyEvm cx) (List ℕ)
  created_addresses = do bugs ← bug_inspector; pure bugs.created_addresses
