-- ===== src/ForkDb/Commit.antt =====
-- src/fork_db.rs: `commit`, which writes the changes of a transaction.
use tevm.External.{Externals}
use tevm.ForkDb.{AccountInfo, AccountState, DbAccount, ForkDb, default_info, is_storage_cleared}
use tevm.ForkDb.Accounts.{account_or_default, set_account, insert_contract}
use tevm.Prelude.{ℕ, Bool, [], ◌∷◌, not, if◌then◌else◌, HashMap}
use tevm.Prelude.Maps

-- revm's `Account`, with the present value of each slot
pub record Account : Type 0 where
  pub info : AccountInfo
  pub storage : HashMap ℕ
  pub is_touched : Bool
  pub is_selfdestructed : Bool
  pub is_created : Bool

module _ (ext : Externals) where
  -- the account of the database after its own is destroyed
  unfoldable pub destroyed : DbAccount
  destroyed = record {
    info = default_info ext;
    account_state = AccountState.not_existing;
    storage = [];
  }

  -- the account of the database after a change, with the account info that `insert_contract` left
  unfoldable pub committed : DbAccount → AccountInfo → Account → DbAccount
  committed old info account = record {
    info = info;
    account_state =
        if account.is_created
        then AccountState.storage_cleared
        else if is_storage_cleared old.account_state
        then AccountState.storage_cleared
        else AccountState.touched;
    storage = Maps.extend (if account.is_created then [] else old.storage) account.storage;
  }

  -- one round of the loop
  unfoldable pub commit_account : ℕ → Account → ForkDb → ForkDb
  commit_account address account db =
      if not account.is_touched
      then db
      else if account.is_selfdestructed
      then set_account ext address destroyed db
      else (let (info, db') = insert_contract ext account.info db in
          set_account ext address (committed (account_or_default ext db' address) info account) db')

  -- The loop; a hash map yields its entries in some order, each key once.
  unfoldable pub commit : HashMap Account → ForkDb → ForkDb
  unfolding commit_account
  commit [] db = db
  commit ((address, account) ∷ changes) db = commit changes (commit_account address account db)
