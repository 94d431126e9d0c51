-- ===== src/ForkDb/Accounts.antt =====
-- src/fork_db.rs: the operations on accounts and contracts that need no remote data.
use tevm.External.{Externals}
use tevm.ForkDb.{AccountInfo, DbAccount, ForkDb, default_account}
use tevm.Prelude.{ℕ, List, ◌∷◌, Option, none, some, ◌==◌, if◌then◌else◌}
use tevm.Prelude.Maps

module _ (ext : Externals) where
  -- `contracts.entry(code_hash).or_insert_with(|| code.clone())`
  unfoldable pub or_insert_contract : ℕ → List ℕ → ForkDb → ForkDb
  or_insert_contract code_hash code db = elim (Maps.get db.contracts code_hash) [
    | none ↦ record db { contracts = Maps.insert code_hash code db.contracts }
    | some _ ↦ db
  ]

  -- The hash under which nonempty code is filed; `hash_slow` is its Keccak hash.
  unfoldable pub filed_hash : ℕ → List ℕ → ℕ
  filed_hash code_hash code =
      if code_hash == ext.keccak_empty then ext.keccak256 code else code_hash

  -- `insert_contract` by the code of the account: the account and the database after it
  unfoldable pub insert_code : Option (List ℕ) → AccountInfo → ForkDb → AccountInfo × ForkDb
  unfolding or_insert_contract filed_hash
  insert_code (some (b ∷ code)) account db = (
    record account { code_hash = filed_hash account.code_hash (b ∷ code) },
    or_insert_contract (filed_hash account.code_hash (b ∷ code)) (b ∷ code) db,
  )
  insert_code _ account db = (record account { code_hash = ext.keccak_empty }, db)

  unfoldable pub insert_contract : AccountInfo → ForkDb → AccountInfo × ForkDb
  unfolding insert_code
  insert_contract account db = insert_code account.code account db

  -- `accounts.entry(address).or_default()`
  abbrev pub account_or_default : ForkDb → ℕ → DbAccount
  account_or_default db address = Maps.entry_or (default_account ext) db.accounts address

  abbrev pub set_account : ℕ → DbAccount → ForkDb → ForkDb
  set_account address account db = record db { accounts = Maps.insert address account db.accounts }

  unfoldable pub insert_account_info : ℕ → AccountInfo → ForkDb → ForkDb
  unfolding insert_contract
  insert_account_info address info db =
      let (info', db') = insert_contract info db in
      set_account address (record (account_or_default db' address) { info = info' }) db'

  -- `accounts.entry(address).or_default().storage.insert(slot, value)`
  unfoldable pub write_slot : ℕ → ℕ → ℕ → ForkDb → ForkDb
  write_slot address slot value db =
      let account = account_or_default db address in
      set_account address (record account { storage = Maps.insert slot value account.storage }) db
