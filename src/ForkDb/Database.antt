-- ===== src/ForkDb/Database.antt =====
-- src/fork_db.rs: the methods of `Database`, and the operations that go through `basic`.
use tevm.ForkDb.{AccountInfo, AccountState, Context, ForkDb, World}
use tevm.ForkDb.Accounts.{account_or_default, set_account, insert_account_info, write_slot}
use tevm.ForkProvider
use tevm.ForkProvider.{Block}
use tevm.Prelude.{
  ℕ, Bool, true, not, ◌||◌, List, [], ◌∷◌, Option, none, some, ◌==◌, ltb, if◌then◌else◌, HashMap,
}
use tevm.Prelude.Maps
use tevm.Prelude.Outcome.{
  Outcome, ok, err, panic, Exec, pure, lift, modify, ◌>>=◌, ◌>>◌, no_block_id, block_missing,
  no_provider, context,
}
use tevm.Words.{u64_max, try_usize}

-- what the node says of an account
pub record Fetched : Type 0 where
  pub nonce : ℕ
  pub balance : ℕ
  pub code : List ℕ

-- whether there is anything at the remote address
unfoldable pub is_remote : ℕ → ℕ → List ℕ → Bool
is_remote nonce balance [] = not (balance == 0) || not (nonce == 0)
is_remote nonce balance (_ ∷ _) = true

-- `remote_addresses.entry(address).or_default()`
abbrev pub remote_entry : ForkDb → ℕ → List ℕ
remote_entry db address = Maps.entry_or [] db.remote_addresses address

-- a slot that the database holds
unfoldable pub held_slot : ForkDb → ℕ → ℕ → Option ℕ
held_slot db address index = elim (Maps.get db.accounts address) [
  | none ↦ none
  | some account ↦ Maps.get account.storage index
]

-- `block.hash.unwrap()`
abbrev pub unwrap_hash : Block → Outcome ℕ
unwrap_hash block = elim block.hash [ none ↦ panic | some hash ↦ ok hash ]

module _ (cx : Context) where
  -- a call of the provider, with the cache of the world
  unfoldable pub provider_call : {A : Type 0} → Exec cx.cache.Store A → Exec (World cx) A
  provider_call m w = let (r, s') = m w.store in (r, record w { store = s' })

  -- `self.provider.as_mut().unwrap()` and a call
  unfoldable pub unwrap_provider : {A : Type 0} → Exec cx.cache.Store A → Exec (World cx) A
  unfolding provider_call
  unwrap_provider m w = if w.db.has_provider then provider_call m w else (panic, w)

  abbrev pub on_db : (ForkDb → ForkDb) → World cx → World cx
  on_db f w = record w { db = f w.db }

  -- what `basic` writes for an account that it has loaded
  unfoldable pub record_loaded : ℕ → AccountInfo → Bool → ForkDb → ForkDb
  record_loaded address info remote db =
      let db' = insert_account_info cx.ext address info db in
      if remote
      then record db' {
        remote_addresses = Maps.insert address (remote_entry db' address) db'.remote_addresses;
      }
      else db'

  -- The three requests of `basic`, in order; `nonce.as_u64()` panics past 64 bits.
  unfoldable pub fetch_account : ℕ → Exec (World cx) Fetched
  fetch_account address w =
      (do
        nonce ←
            unwrap_provider
              (ForkProvider.get_transaction_count cx.cache cx.codec cx.remote address w.db.block_id)
        balance ←
            unwrap_provider
              (ForkProvider.get_balance cx.cache cx.codec cx.remote address w.db.block_id)
        code ←
            unwrap_provider
              (ForkProvider.get_code cx.cache cx.codec cx.remote address w.db.block_id)
        nonce64 ← lift (try_usize nonce)
        pure (record { nonce = nonce64; balance = balance; code = code }))
        w

  -- the `AccountInfo::new(..)` of `basic`
  abbrev pub fetched_info : Fetched → AccountInfo
  fetched_info f = record {
    balance = f.balance;
    nonce = f.nonce;
    code_hash = cx.ext.keccak256 f.code;
    code = some f.code;
    padding = [];
  }

  -- the part of `basic` that loads from the node
  unfoldable pub load_account : ℕ → Exec (World cx) (Option AccountInfo)
  load_account address = do
    f ← fetch_account address
    modify (on_db (record_loaded address (fetched_info f) (is_remote f.nonce f.balance f.code)))
    pure (some (fetched_info f))

  unfoldable pub basic : ℕ → Exec (World cx) (Option AccountInfo)
  basic address w = elim (Maps.get w.db.accounts address) [
    | some account ↦ (ok (some account.info), w)
    | none ↦
        if not w.db.fork_enabled
        then (ok none, w)
        else if ltb w.db.max_fork_depth w.call_depth
        then (
          ok none,
          record w {
            db = record w.db { ignored_addresses = Maps.set_insert address w.db.ignored_addresses };
          },
        )
        else load_account address w
  ]

  -- "Not expected, code should be loaded by account"
  unfoldable pub code_by_hash : ℕ → Exec (World cx) (List ℕ)
  code_by_hash _ w = (panic, w)

  -- what `storage` writes for a slot that it has loaded
  unfoldable pub record_slot : ℕ → ℕ → ℕ → ForkDb → ForkDb
  record_slot address index value db = write_slot cx.ext address index value (record db {
    remote_addresses =
        Maps.insert address (Maps.set_insert index (remote_entry db address)) db.remote_addresses;
  })

  -- the part of `storage` that asks the node
  unfoldable pub load_slot : ℕ → ℕ → Exec (World cx) ℕ
  load_slot address index w =
      (do
        value ←
            unwrap_provider
              (ForkProvider.get_storage_at cx.cache cx.codec cx.remote address index w.db.block_id)
        modify (on_db (record_slot address index value))
        pure value)
        w

  -- the part of `storage` after the call of `basic`
  unfoldable pub read_slot : ℕ → ℕ → Exec (World cx) ℕ
  read_slot address index w = elim (held_slot w.db address index) [
    | some value ↦ (ok value, w)
    | none ↦
        if not (Maps.contains_key w.db.remote_addresses address) || not w.db.fork_enabled
        then (ok 0, w)
        else load_slot address index w
  ]

  unfoldable pub storage : ℕ → ℕ → Exec (World cx) ℕ
  storage address index = do basic address; read_slot address index

  unfoldable pub get_fork_block_id : Exec (World cx) ℕ
  get_fork_block_id w = elim w.db.block_id [
    | some block_id ↦ (ok block_id, w)
    | none ↦
        if w.db.has_provider
        then provider_call (ForkProvider.get_block_number cx.cache cx.codec cx.remote) w
        else (err no_block_id, w)
  ]

  unfoldable pub get_fork_block_by_number : ℕ → Exec (World cx) Block
  get_fork_block_by_number number w = elim (Maps.get w.db.block_cache number) [
    | some block ↦ (ok block, w)
    | none ↦
        if w.db.has_provider
        then (do
          found ← provider_call (ForkProvider.get_block cx.cache cx.codec cx.remote number)
          block ← lift (context found block_missing)
          modify (on_db (λ db. record db { block_cache = Maps.insert number block db.block_cache }))
          pure block)
            w
        else (err no_provider, w)
  ]

  unfoldable pub get_fork_block : Exec (World cx) Block
  get_fork_block = do number ← get_fork_block_id; get_fork_block_by_number number

  unfoldable pub block_hash : ℕ → Exec (World cx) ℕ
  block_hash number w = elim (Maps.get w.db.block_hashes number) [
    | some hash ↦ (ok hash, w)
    | none ↦
        if not w.db.fork_enabled
        then (ok (cx.ext.keccak256 (cx.ext.word_bytes number)), w)
        else if ltb u64_max number
        then (ok cx.ext.keccak_empty, w)
        else (do
          block ← get_fork_block_by_number number
          hash ← lift (unwrap_hash block)
          modify
              (on_db (λ db. record db { block_hashes = Maps.insert number hash db.block_hashes }))
          pure hash)
            w
  ]

  unfoldable pub insert_account_storage : ℕ → ℕ → ℕ → Exec (World cx) (Unit {0})
  insert_account_storage address slot value = do
    basic address
    modify (on_db (write_slot cx.ext address slot value))

  -- the write of `replace_account_storage`
  unfoldable pub replace_storage : ℕ → HashMap ℕ → ForkDb → ForkDb
  replace_storage address slots db =
      set_account cx.ext address
        (record (account_or_default cx.ext db address) {
          storage = slots;
          account_state = AccountState.storage_cleared;
        })
        db

  unfoldable pub replace_account_storage : ℕ → HashMap ℕ → Exec (World cx) (Unit {0})
  replace_account_storage address slots = do
    basic address
    modify (on_db (replace_storage address slots))
