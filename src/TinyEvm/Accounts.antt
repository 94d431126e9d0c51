-- ===== src/TinyEvm/Accounts.antt =====
-- src/lib.rs: the operations of `TinyEVM` on accounts and their storage.
use tevm.ForkDb.{AccountInfo, Context, DbAccount, ForkDb, default_info}
use tevm.ForkDb.Accounts.{insert_account_info, set_account}
use tevm.ForkDb.Database
use tevm.Prelude.{ℕ, ◌-◌, ◌^◌, Bool, List, [], ◌++◌, Option, none, some, unwrap_or, if◌then◌else◌}
use tevm.Prelude.Maps
use tevm.Prelude.Outcome.{Outcome, ok, Exec, pure, ◌>>=◌, ◌>>◌, and_then, context, account_missing}
use tevm.TinyEvm.{TinyEvm, bug_inspector_mut, db_mut, run_db}

-- `U256::from_limbs([0x0, 0xffffffffffffffff, 0xffffffffffffffff, 0x0])`
abbrev pub default_balance : ℕ
default_balance = 2 ^ 192 - 2 ^ 64

-- `bytecode()` of the code of an account that `basic` found, with its padding, or no bytes
abbrev pub code_of : Option AccountInfo → List ℕ
code_of none = []
code_of (some info) = elim info.code [ none ↦ [] | some code ↦ code ++ info.padding ]

module _ (cx : Context) where
  -- `AccountInfo::from_balance`, with the other fields of `AccountInfo::default()`
  abbrev pub info_of_balance : ℕ → AccountInfo
  info_of_balance balance = record (default_info cx.ext) { balance = balance }

  unfoldable pub set_balance_of : ℕ → ℕ → ForkDb → ForkDb
  set_balance_of address balance db = elim (Maps.get db.accounts address) [
    | some account ↦
        set_account cx.ext address
          (record account { info = record account.info { balance = balance } }) db
    | none ↦ insert_account_info cx.ext address (info_of_balance balance) db
  ]

  unfoldable pub set_account_balance : ℕ → ℕ → Exec (TinyEvm cx) (Unit {0})
  unfolding db_mut
  set_account_balance address balance = db_mut cx (set_balance_of address balance)

  unfoldable pub reset_account : ℕ → Exec (TinyEvm cx) (Unit {0})
  unfolding db_mut
  reset_account addr = db_mut cx λ db. elim (Maps.get db.accounts addr) [
    | some _ ↦ insert_account_info cx.ext addr (info_of_balance default_balance) db
    | none ↦ db
  ]

  unfoldable pub reset_storage : ℕ → Exec (TinyEvm cx) (Unit {0})
  reset_storage addr = run_db cx (Database.replace_account_storage cx addr [])

  abbrev pub forget_account : ℕ → ForkDb → ForkDb
  forget_account addr db = record db { accounts = Maps.remove addr db.accounts }

  unfoldable pub nuke_account : ℕ → Exec (TinyEvm cx) (Unit {0})
  nuke_account addr = do
    db_mut cx (forget_account addr)
    bug_inspector_mut cx
        (λ ins. record ins { managed_addresses = Maps.remove addr ins.managed_addresses })

  -- the account info that `set_code_by_address` writes
  unfoldable pub info_with_code : List ℕ → Option DbAccount → AccountInfo
  info_with_code code old = elim old [
    | some account ↦ record account.info {
      code = some code;
      padding = [];
      code_hash = cx.ext.keccak256 code;
    }
    | none ↦ record (info_of_balance 1_000_000_000_000) {
      code = some code;
      padding = [];
      code_hash = cx.ext.keccak256 code;
    }
  ]

  unfoldable pub set_code_by_address : ℕ → List ℕ → Exec (TinyEvm cx) (Unit {0})
  unfolding db_mut
  set_code_by_address addr code =
      db_mut cx
        λ db. insert_account_info cx.ext addr (info_with_code code (Maps.get db.accounts addr)) db

  unfoldable pub get_code_by_address : ℕ → Exec (TinyEvm cx) (List ℕ)
  get_code_by_address addr = do account ← run_db cx (Database.basic cx addr); pure (code_of account)

  -- `account.unwrap_or_default().balance`
  unfoldable pub balance_of : Option AccountInfo → ℕ
  balance_of account = elim account [
    | none ↦ (default_info cx.ext).balance
    | some info ↦ info.balance
  ]

  unfoldable pub get_eth_balance : ℕ → Exec (TinyEvm cx) ℕ
  get_eth_balance addr = do account ← run_db cx (Database.basic cx addr); pure (balance_of account)

  -- It reads what the database holds, and asks no node.
  unfoldable pub get_storage_by_address : ℕ → ℕ → TinyEvm cx → Outcome ℕ
  get_storage_by_address addr index t =
      and_then (context (Maps.get t.db.accounts addr) account_missing)
        λ account. ok (unwrap_or (Maps.get account.storage index) 0)

  unfoldable pub set_storage_by_address : ℕ → ℕ → ℕ → Exec (TinyEvm cx) (Unit {0})
  set_storage_by_address addr index value =
      run_db cx (Database.insert_account_storage cx addr index value)

  unfoldable pub clone_in : ℕ → ℕ → Bool → ForkDb → ForkDb
  clone_in from to delete db = elim (Maps.get db.accounts from) [
    | none ↦ db
    | some account ↦
        let db' = set_account cx.ext to account db in
        if delete then forget_account from db' else db'
  ]

  unfoldable pub clone_account : ℕ → ℕ → Bool → Exec (TinyEvm cx) (Unit {0})
  unfolding db_mut
  clone_account from to delete = db_mut cx (clone_in from to delete)

  unfoldable pub toggle_enable_fork : Bool → Exec (TinyEvm cx) (Unit {0})
  unfolding db_mut
  toggle_enable_fork enabled = db_mut cx (λ db. record db { fork_enabled = enabled })

  unfoldable pub is_fork_enabled : TinyEvm cx → Bool
  is_fork_enabled t = t.db.fork_enabled
