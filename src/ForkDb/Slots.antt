-- ===== src/ForkDb/Slots.antt =====
-- src/fork_db.rs: `storage` after reads and writes of slots.
use tevm.External.{HashesEmpty}
use tevm.ForkDb.{AccountState, Context, DbAccount, ForkDb, World, default_account}
use tevm.ForkDb.Accounts.{write_slot}
use tevm.ForkDb.Database.{
  basic, storage, read_slot, load_slot, held_slot, record_slot, on_db, unwrap_provider,
  insert_account_storage, replace_account_storage, replace_storage, remote_entry,
}
use tevm.ForkDb.Laws.{held_slot-write_slot}
use tevm.ForkDb.Reads.{basic_known, basic_settles, ok-injective_pair}
use tevm.ForkProvider
use tevm.Prelude.{
  ℕ, ◌≡◌, refl, sym, ap, ◌∙◌, ◌⊎◌, inl, inr, true, false, not, ◌&&◌, ◌||◌, none, some, arith, ◌==◌,
  Bool-cases, Option-cases, if◌then◌else◌, HashMap,
}
use tevm.Prelude.Maps
use tevm.Prelude.Maps.{get-insert}
use tevm.Prelude.Outcome.{Outcome, ok, >>=-eq-ok}

-- a slot is held by an account
held_slot-account :
    (db : ForkDb) (a i : ℕ) {v : ℕ}
    → held_slot db a i ≡ some v
    → (account : DbAccount) × (Maps.get db.accounts a ≡ some account)
unfolding held_slot
held_slot-account db a i h = elim (Option-cases (Maps.get db.accounts a)) [
  | inl e ↦ ground (arith, h, e)
  | inr found ↦ found
]

module _ (cx : Context) where
  read_slot_held :
      (a i : ℕ) (w : World cx) {v : ℕ}
      → held_slot w.db a i ≡ some v
      → read_slot cx a i w ≡ (ok v, w)
  unfolding read_slot
  read_slot_held a i w h = ground (arith, h)

  -- a slot that is held is what `storage` returns
  pub storage_held :
      (a i : ℕ) (w : World cx) {v : ℕ} → held_slot w.db a i ≡ some v → storage cx a i w ≡ (ok v, w)
  unfolding storage
  storage_held a i w h =
      let (account, e) = held_slot-account w.db a i h in
      rw (basic_known cx a w e) (read_slot_held a i w h)

  read_slot_absent :
      (a i : ℕ) (w : World cx)
      → held_slot w.db a i ≡ none
      → (not (Maps.contains_key w.db.remote_addresses a) || not w.db.fork_enabled) ≡ true
      → read_slot cx a i w ≡ (ok 0, w)
  unfolding read_slot
  read_slot_absent a i w h zero = ground (arith, h, zero)

  read_slot_loading :
      (a i : ℕ) (w : World cx)
      → held_slot w.db a i ≡ none
      → (not (Maps.contains_key w.db.remote_addresses a) || not w.db.fork_enabled) ≡ false
      → read_slot cx a i w ≡ load_slot cx a i w
  unfolding read_slot
  read_slot_loading a i w h remote = ground (arith, h, remote)

  held_slot-record_slot :
      (a i v : ℕ) (db : ForkDb) → held_slot (record_slot cx a i v db) a i ≡ some v
  unfolding record_slot
  held_slot-record_slot a i v db =
      let db' : ForkDb = record db {
        remote_addresses =
            Maps.insert a (Maps.set_insert i (remote_entry db a)) db.remote_addresses;
      } in
      ground (arith, held_slot-write_slot cx.ext a i v a i db')

  load_slot_holds :
      (a i : ℕ) (w : World cx) {v : ℕ} {w' : World cx}
      → load_slot cx a i w ≡ (ok v, w')
      → held_slot w'.db a i ≡ some v
  unfolding load_slot
  load_slot_holds a i w e =
      let (value, w1, e1, k) =
        >>=-eq-ok
          (unwrap_provider cx
            (ForkProvider.get_storage_at cx.cache cx.codec cx.remote a i w.db.block_id))
          _ w e in
      let (same, kept) = ok-injective_pair cx k in
      ap (λ u. held_slot u.db a i) (sym kept) ∙ held_slot-record_slot a i value w1.db ∙ ap some same

  -- a read of a slot leaves it held, or changes nothing
  read_slot_holds :
      (a i : ℕ) (w : World cx) {v : ℕ} {w' : World cx}
      → read_slot cx a i w ≡ (ok v, w')
      → (w ≡ w') ⊎ (held_slot w'.db a i ≡ some v)
  read_slot_holds a i w e = elim (Option-cases (held_slot w.db a i)) [
    | inr (held, h) ↦
        let (_, kept) = ok-injective_pair cx (sym (read_slot_held a i w h) ∙ e) in inl kept
    | inl h ↦
        elim (Bool-cases
          (not (Maps.contains_key w.db.remote_addresses a) || not w.db.fork_enabled)) [
            | inl zero ↦
                let (_, kept) = ok-injective_pair cx (sym (read_slot_absent a i w h zero) ∙ e) in
                inl kept
            | inr remote ↦ inr (load_slot_holds a i w (sym (read_slot_loading a i w h remote) ∙ e))
          ]
  ]

  -- Reads of a slot settle: when `storage` returns, from any state and after any loading, a second
  -- `storage` of that slot returns the same and changes nothing. The hash of no bytes is assumed to
  -- be the constant that stands for it.
  pub storage_settles :
      (a i : ℕ) (w : World cx) {v : ℕ} {w' : World cx}
      → HashesEmpty cx.ext
      → storage cx a i w ≡ (ok v, w')
      → storage cx a i w' ≡ (ok v, w')
  unfolding storage
  storage_settles a i w {v} {w'} law e =
      let (found, w1, e1, k) = >>=-eq-ok (basic cx a) _ w e in
      elim (read_slot_holds a i w1 k) [
        | inr held ↦ storage_held a i w' held
        | inl kept ↦
            let again : storage cx a i w1 ≡ (ok v, w') = rw (basic_settles cx a w law e1) k in
            ap (storage cx a i) (sym kept) ∙ again
      ]

  pub insert_account_storage-held :
      (a s v : ℕ) (w : World cx) {w' : World cx}
      → insert_account_storage cx a s v w ≡ (ok tt, w')
      → held_slot w'.db a s ≡ some v
  unfolding insert_account_storage
  insert_account_storage-held a s v w e =
      let (found, w1, e1, k) = >>=-eq-ok (basic cx a) _ w e in
      ap (λ p. held_slot p.1.db a s) (sym k)
      ∙ ground (arith, held_slot-write_slot cx.ext a s v a s w1.db)

  -- When `insert_account_storage` returns, the slot is what `storage` reads from then on, in
  -- whatever mode and at whatever depth, and no other slot that the database held is changed:
  -- another slot holds what it did after the account was read.
  pub insert_account_storage_reads :
      (a s v b t : ℕ) (w : World cx) {w' : World cx}
      → insert_account_storage cx a s v w ≡ (ok tt, w')
      → (storage cx a s w' ≡ (ok v, w'))
        × ((a == b && s == t) ≡ false → held_slot w'.db b t ≡ held_slot (basic cx a w).1.db b t)
  unfolding insert_account_storage
  insert_account_storage_reads a s v b t w {w'} e =
      let (found, w1, e1, k) = >>=-eq-ok (basic cx a) _ w e in
      let kept : on_db cx (write_slot cx.ext a s v) w1 ≡ w' = ap (λ p. p.1) k in
      (
        storage_held a s w' (insert_account_storage-held a s v w e),
        λ other.
            ap (λ u. held_slot u.db b t) (sym kept)
            ∙ ground (arith, other, held_slot-write_slot cx.ext a s v b t w1.db)
            ∙ ap (λ p. held_slot p.1.db b t) (sym e1),
      )

  held_slot-replace_storage :
      (a i : ℕ) (slots : HashMap ℕ) (db : ForkDb)
      → held_slot (replace_storage cx a slots db) a i ≡ Maps.get slots i
  unfolding held_slot replace_storage
  held_slot-replace_storage a i slots db =
      let new : DbAccount = record (Maps.entry_or (default_account cx.ext) db.accounts a) {
        storage = slots;
        account_state = AccountState.storage_cleared;
      } in
      ground (arith, get-insert a a new db.accounts)

  -- the world after `replace_account_storage` on an account that the database holds
  abbrev pub replaced : ℕ → HashMap ℕ → World cx → World cx
  replaced a slots w = on_db cx (replace_storage cx a slots) w

  replace_known :
      (a : ℕ) (slots : HashMap ℕ) (w : World cx) {account : DbAccount}
      → Maps.get w.db.accounts a ≡ some account
      → replace_account_storage cx a slots w ≡ (ok tt, replaced a slots w)
  unfolding replace_account_storage
  replace_known a slots w h = rw (basic_known cx a w h) refl

  account-replaced :
      (a : ℕ) (slots : HashMap ℕ) (w : World cx)
      → (account : DbAccount) × (Maps.get (replaced a slots w).db.accounts a ≡ some account)
  unfolding replace_storage
  account-replaced a slots w =
      let new : DbAccount = record (Maps.entry_or (default_account cx.ext) w.db.accounts a) {
        storage = slots;
        account_state = AccountState.storage_cleared;
      } in
      (new, ground (arith, get-insert a a new w.db.accounts))

  -- what a slot is read as after its account's storage was replaced
  abbrev pub replaced_slot : ℕ → ℕ → HashMap ℕ → World cx → World cx → Outcome ℕ × World cx
  replaced_slot a i slots w w' = elim (Maps.get slots i) [
    | some v ↦ (ok v, w')
    | none ↦
        if not (Maps.contains_key w.db.remote_addresses a) || not w.db.fork_enabled
        then (ok 0, w')
        else load_slot cx a i w'
  ]

  read_slot-replaced :
      (a i : ℕ) (slots : HashMap ℕ) (w : World cx)
      → read_slot cx a i (replaced a slots w) ≡ replaced_slot a i slots w (replaced a slots w)
  unfolding read_slot replace_storage
  read_slot-replaced a i slots w = ground (arith, held_slot-replace_storage a i slots w.db)

  -- What `storage` reads of an account that the database held and whose storage was replaced: a
  -- slot of the new storage, and zero for any other slot offline or at an address with no remote
  -- entry. But a slot outside the new storage of a remote address is asked of the node again
  -- while the fork is on, although the account is marked `StorageCleared`.
  pub replaced_storage_reads :
      (a i : ℕ) (slots : HashMap ℕ) (w : World cx) {account : DbAccount} {w' : World cx}
      → Maps.get w.db.accounts a ≡ some account
      → replace_account_storage cx a slots w ≡ (ok tt, w')
      → storage cx a i w' ≡ replaced_slot a i slots w w'
  unfolding storage
  replaced_storage_reads a i slots w {account} {w'} h e =
      let (_, kept) = ok-injective_pair cx (sym (replace_known a slots w h) ∙ e) in
      let (_, held) = account-replaced a slots w in
      let read : storage cx a i (replaced a slots w)
          ≡ replaced_slot a i slots w (replaced a slots w) =
        rw (basic_known cx a (replaced a slots w) held) (read_slot-replaced a i slots w) in
      ap (storage cx a i) (sym kept) ∙ read ∙ ap (replaced_slot a i slots w) kept
