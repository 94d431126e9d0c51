-- ===== src/TinyEvm/Construction.antt =====
-- src/lib.rs: `new_instance`, which every constructor of `TinyEVM` calls. The flags of `CfgEnv`,
-- which only revm reads, are left out.
pub mod Offline
pub mod Fork
use tevm.ForkDb.{AccountInfo, Context, DbWorld, ForkDb, World, create, create_with_provider}
use tevm.ForkDb.Accounts.{insert_account_info}
use tevm.ForkDb.Database
use tevm.ForkProvider.{Block}
use tevm.Instrument.BugInspector.{default_bug_inspector}
use tevm.Instrument.LogInspector.{Locals, default_log_inspector}
use tevm.Common.{tx_gas_limit}
use tevm.Prelude.{
  ℕ, ◌≡◌, refl, Bool, true, false, List, [], Option, none, some, is_some, unwrap_or, String,
  HashMap,
}
use tevm.Prelude.Outcome.{Outcome, ok, err, panic, Exec, unwrap, and_then}
use tevm.TinyEvm.{BlockEnv, TinyEvm, TinyEvmOf, TxEnv}
use tevm.TinyEvm.Accounts.{info_of_balance, default_balance}

-- What the libraries and the process provide: `Runtime::new`, `Provider::<Http>::try_from`, the
-- variable `TINYEVM_MAX_FORK_DEPTH`, and the defaults of revm for the environment.
pub record Setup : Type 0 where
  pub runtime_new : Outcome (Unit {0})
  pub provider_try_from : String → Outcome (Unit {0})
  pub max_fork_depth : Option (Option ℕ)
  pub default_tx : TxEnv
  pub default_block : BlockEnv
  pub default_chain_id : ℕ

module _ (cx : Context) (setup : Setup) where
  -- the database of the new instance
  unfoldable pub new_fork_db : Option String → Option ℕ → Outcome ForkDb
  new_fork_db none _ = create cx.remote setup.max_fork_depth
  new_fork_db (some url) block_id = and_then (unwrap setup.runtime_new) λ _.
      and_then (setup.provider_try_from url)
        λ _. create_with_provider cx.remote true block_id setup.max_fork_depth

  -- the environment of the fork block
  unfoldable pub block_env_of : ℕ → Block → BlockEnv
  block_env_of number block = record setup.default_block {
    number = number;
    timestamp = block.timestamp;
    difficulty = block.difficulty;
    gas_limit = block.gas_limit;
    basefee = unwrap_or block.base_fee_per_gas setup.default_block.basefee;
    coinbase = unwrap_or block.author setup.default_block.coinbase;
  }

  -- `block.number.expect(..)`
  unfoldable pub expect_number : Option ℕ → Outcome ℕ
  expect_number none = panic
  expect_number (some number) = ok number

  -- `db.get_fork_block().unwrap()` and the block environment, if there is a fork
  unfoldable pub fork_env : Bool → Exec (World cx) BlockEnv
  fork_env false w = (ok setup.default_block, w)
  fork_env true w =
      let (found, w') = Database.get_fork_block cx w in
      (
        and_then (unwrap found)
            λ block. and_then (expect_number block.number) λ number. ok (block_env_of number block),
        w',
      )

  -- the instance, once the database and the environment are there
  unfoldable pub instance_of : Bool → BlockEnv → Locals → World cx → TinyEvm cx
  instance_of enable_call_trace block locals w = record {
    db = insert_account_info cx.ext 0 (info_of_balance cx default_balance) w.db;
    store = w.store;
    locals = locals;
    inspectors = record {
      log_inspector = some (record default_log_inspector { trace_enabled = enable_call_trace });
      bug_inspector = some default_bug_inspector;
    };
    tx = setup.default_tx;
    block = block;
    chain_id = setup.default_chain_id;
    owner = 0;
    tx_gas_limit = tx_gas_limit;
    snapshots = [];
    global_snapshot = [];
  }

  -- From the storage behind the cache and the thread-local cells; the storage may have been
  -- written also when no instance is made.
  unfoldable pub new_instance :
      Option String
      → Option ℕ
      → Bool
      → Locals
      → cx.cache.Store
      → Outcome (TinyEvm cx) × cx.cache.Store
  new_instance fork_url block_id enable_call_trace locals store =
      elim (new_fork_db fork_url block_id) [
        | ok db ↦
            let w : World cx = record { db = db; store = store; call_depth = locals.call_depth } in
            let (block, w') = fork_env (is_some fork_url) w in
            (and_then block (λ b. ok (instance_of enable_call_trace b locals w')), w'.store)
        | err e ↦ (err e, store)
        | panic ↦ (panic, store)
      ]

  -- `TinyEVM::new` of Python, `new_offline` and `default`
  unfoldable pub new :
      Option String → Option ℕ → Locals → cx.cache.Store → Outcome (TinyEvm cx) × cx.cache.Store
  new fork_url block_id = new_instance fork_url block_id false

  unfoldable pub new_offline : Locals → cx.cache.Store → Outcome (TinyEvm cx) × cx.cache.Store
  new_offline = new_instance none none false

  unfoldable pub default_evm : Locals → cx.cache.Store → Outcome (TinyEvm cx) × cx.cache.Store
  default_evm locals store =
      let (made, store') = new_instance none none false locals store in (unwrap made, store')
