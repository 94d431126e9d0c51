-- ===== src/ForkDb/Steps/Keeps.antt =====
-- src/fork_db.rs: the code of accounts in the operations that may ask the node.
use tevm.ForkDb.{AccountInfo, AccountState, Context, ForkDb, World}
use tevm.ForkDb.Accounts.{account_or_default, write_slot}
use tevm.ForkDb.Contracts.{
  HoldsCode, MatchesCode, insert_account_info-HoldsCode, same_info-HoldsCode, write_slot-HoldsCode,
}
use tevm.ForkDb.Database.{
  Fetched, basic, fetch_account, fetched_info, insert_account_storage, is_remote, load_account,
  load_slot, on_db, provider_call, held_slot, remote_entry, read_slot, record_loaded, record_slot,
  replace_account_storage, replace_storage, storage, unwrap_provider,
}
use tevm.ForkDb.Reads.{Basic, basic-Basic, known, offline, ignored, loading}
use tevm.Prelude.{
  ℕ, refl, ap, Bool, Option, none, some, inr, HashMap, if_both, some_inj, not, ◌||◌, if◌then◌else◌,
}
use tevm.ForkProvider
use tevm.ForkProvider.{Block}
use tevm.Prelude.Maps
use tevm.Words.{try_usize}
use tevm.Prelude.Outcome.{Outcome, ok, Exec, continue, continue_keeps, >>=_keeps, ◌>>=◌}

pub option_both :
    {A B : Type 0} (P : B → Type 0) (o : Option A) {x : A → B} {y : B}
    → ((a : A) → P (x a))
    → P y
    → P (elim o [ none ↦ y | some a ↦ x a ])
option_both P none px py = py
option_both P (some a) px py = px a

module _ (cx : Context) where
  unfoldable pub HeldCode : World cx → Type 0
  HeldCode w = HoldsCode cx.ext w.db

  abbrev pub HeldAfter : {A : Type 0} → Outcome A × World cx → Type 0
  HeldAfter r = HeldCode r.1

  pub on_db-HeldCode :
      (f : ForkDb → ForkDb) (w : World cx)
      → (HoldsCode cx.ext w.db → HoldsCode cx.ext (f w.db))
      → HeldCode w
      → HeldCode (on_db cx f w)
  unfolding HeldCode
  on_db-HeldCode f w keeps holds = keeps holds

  -- What holds before a bind and after each of its parts holds after it.
  pub continue-HeldCode :
      {A B : Type 0} (r : Outcome A) (f : A → Exec (World cx) B) (w : World cx)
      → HeldCode w
      → ((a : A) → HeldCode w → HeldAfter (f a w))
      → HeldAfter (continue r f w)
  continue-HeldCode = continue_keeps (HeldCode)

  pub >>=-HeldCode :
      {A B : Type 0} (m : Exec (World cx) A) (f : A → Exec (World cx) B) (w : World cx)
      → HeldAfter (m w)
      → ((a : A) (w' : World cx) → HeldCode w' → HeldAfter (f a w'))
      → HeldAfter ((m >>= f) w)
  >>=-HeldCode = >>=_keeps (HeldCode)

  pub provider_call-HeldCode :
      {A : Type 0} (m : Exec cx.cache.Store A) (w : World cx)
      → HeldCode w
      → HeldAfter (provider_call cx m w)
  unfolding provider_call HeldCode
  provider_call-HeldCode m w holds = holds

  unwrap_provider-HeldCode :
      {A : Type 0} (m : Exec cx.cache.Store A) (w : World cx)
      → HeldCode w
      → HeldAfter (unwrap_provider cx m w)
  unfolding unwrap_provider
  unwrap_provider-HeldCode {A} m w holds =
      if_both {A = Outcome A × World cx} (HeldAfter) w.db.has_provider
        (provider_call-HeldCode m w holds) holds

  fetch_account-HeldCode :
      (address : ℕ) (w : World cx) → HeldCode w → HeldAfter (fetch_account cx address w)
  unfolding fetch_account
  fetch_account-HeldCode address w holds =
      let nonces = ForkProvider.get_transaction_count cx.cache cx.codec cx.remote in
      let balances = ForkProvider.get_balance cx.cache cx.codec cx.remote in
      let codes = ForkProvider.get_code cx.cache cx.codec cx.remote in
      >>=-HeldCode (unwrap_provider cx (nonces address w.db.block_id)) _ w
        (unwrap_provider-HeldCode (nonces address w.db.block_id) w holds)
        λ nonce w1 h1.
          >>=-HeldCode (unwrap_provider cx (balances address w.db.block_id)) _ w1
            (unwrap_provider-HeldCode (balances address w.db.block_id) w1 h1)
            λ balance w2 h2.
              >>=-HeldCode (unwrap_provider cx (codes address w.db.block_id)) _ w2
                (unwrap_provider-HeldCode (codes address w.db.block_id) w2 h2)
                λ code w3 h3. continue-HeldCode (try_usize nonce) _ w3 h3 λ n h. h

  fetched_info-MatchesCode : (f : Fetched) → MatchesCode cx.ext (fetched_info cx f)
  fetched_info-MatchesCode f b code e = inr (ap cx.ext.keccak256 (some_inj e))

  record_loaded-HoldsCode :
      (address : ℕ) (f : Fetched) (remote : Bool) (db : ForkDb)
      → HoldsCode cx.ext db
      → HoldsCode cx.ext (record_loaded cx address (fetched_info cx f) remote db)
  unfolding record_loaded
  record_loaded-HoldsCode address f remote db holds =
      let loaded =
        insert_account_info-HoldsCode cx.ext address (fetched_info cx f) db
          (fetched_info-MatchesCode f) holds in
      if_both (HoldsCode cx.ext) remote loaded loaded

  load_account-HeldCode :
      (address : ℕ) (w : World cx) → HeldCode w → HeldAfter (load_account cx address w)
  unfolding load_account
  load_account-HeldCode address w holds =
      >>=-HeldCode (fetch_account cx address) _ w (fetch_account-HeldCode address w holds)
        λ f w1 h1.
          on_db-HeldCode
            (record_loaded cx address (fetched_info cx f) (is_remote f.nonce f.balance f.code)) w1
            (record_loaded-HoldsCode address f _ w1.db) h1

  basic_way-HeldCode :
      (address : ℕ) (w : World cx) {r : Outcome (Option AccountInfo) × World cx}
      → HeldCode w
      → Basic cx address w r
      → HeldAfter r
  basic_way-HeldCode address w holds (known account e) = holds
  basic_way-HeldCode address w holds (offline e off) = holds
  basic_way-HeldCode address w holds (ignored e on deep) =
      let ignore : ForkDb → ForkDb =
        λ db. record db { ignored_addresses = Maps.set_insert address db.ignored_addresses } in
      on_db-HeldCode ignore w (λ h. h) holds
  basic_way-HeldCode address w holds loading = load_account-HeldCode address w holds

  pub basic-HeldCode : (address : ℕ) (w : World cx) → HeldCode w → HeldAfter (basic cx address w)
  basic-HeldCode address w holds = basic_way-HeldCode address w holds (basic-Basic cx address w)

  record_slot-HoldsCode :
      (address index value : ℕ) (db : ForkDb)
      → HoldsCode cx.ext db
      → HoldsCode cx.ext (record_slot cx address index value db)
  unfolding record_slot
  record_slot-HoldsCode address index value db holds =
      let entered : ForkDb = record db {
        remote_addresses =
            Maps.insert address (Maps.set_insert index (remote_entry db address))
              db.remote_addresses;
      } in
      write_slot-HoldsCode cx.ext address index value entered holds

  load_slot-HeldCode :
      (address index : ℕ) (w : World cx) → HeldCode w → HeldAfter (load_slot cx address index w)
  unfolding load_slot
  load_slot-HeldCode address index w holds =
      let slots = ForkProvider.get_storage_at cx.cache cx.codec cx.remote address index in
      >>=-HeldCode (unwrap_provider cx (slots w.db.block_id)) _ w
        (unwrap_provider-HeldCode (slots w.db.block_id) w holds)
        λ value w1 h1.
          on_db-HeldCode (record_slot cx address index value) w1
            (record_slot-HoldsCode address index value w1.db) h1

  read_slot-HeldCode :
      (address index : ℕ) (w : World cx) → HeldCode w → HeldAfter (read_slot cx address index w)
  unfolding read_slot
  read_slot-HeldCode address index w holds =
      let unasked =
        not (Maps.contains_key w.db.remote_addresses address) || not w.db.fork_enabled in
      option_both {B = Outcome ℕ × World cx} HeldAfter (held_slot w.db address index)
        {x = λ value. (ok value, w)}
        {y = if unasked then (ok 0, w) else load_slot cx address index w} (λ value. holds)
        (if_both {A = Outcome ℕ × World cx} HeldAfter unasked {x = (ok 0, w)}
          {y = load_slot cx address index w} holds (load_slot-HeldCode address index w holds))

  pub storage-HeldCode :
      (address index : ℕ) (w : World cx) → HeldCode w → HeldAfter (storage cx address index w)
  unfolding storage
  storage-HeldCode address index w holds =
      >>=-HeldCode (basic cx address) _ w (basic-HeldCode address w holds)
        λ _. read_slot-HeldCode address index

  replace_storage-HoldsCode :
      (address : ℕ) (slots : HashMap ℕ) (db : ForkDb)
      → HoldsCode cx.ext db
      → HoldsCode cx.ext (replace_storage cx address slots db)
  unfolding replace_storage
  replace_storage-HoldsCode address slots db holds =
      same_info-HoldsCode cx.ext address
        (record (account_or_default cx.ext db address) {
          storage = slots;
          account_state = AccountState.storage_cleared;
        })
        db refl holds

  pub insert_account_storage-HeldCode :
      (address slot value : ℕ) (w : World cx)
      → HeldCode w
      → HeldAfter (insert_account_storage cx address slot value w)
  unfolding insert_account_storage
  insert_account_storage-HeldCode address slot value w holds =
      >>=-HeldCode (basic cx address) _ w (basic-HeldCode address w holds) λ _ w1 h1.
        on_db-HeldCode (write_slot cx.ext address slot value) w1
          (write_slot-HoldsCode cx.ext address slot value w1.db) h1

  pub replace_account_storage-HeldCode :
      (address : ℕ) (slots : HashMap ℕ) (w : World cx)
      → HeldCode w
      → HeldAfter (replace_account_storage cx address slots w)
  unfolding replace_account_storage
  replace_account_storage-HeldCode address slots w holds =
      >>=-HeldCode (basic cx address) _ w (basic-HeldCode address w holds) λ _ w1 h1.
        on_db-HeldCode (replace_storage cx address slots) w1
          (replace_storage-HoldsCode address slots w1.db) h1
