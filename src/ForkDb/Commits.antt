-- ===== src/ForkDb/Commits.antt =====
-- src/fork_db.rs: `commit` as a whole, one address at a time.
use tevm.External.{Externals}
use tevm.ForkDb.{AccountState, default_info, is_storage_cleared, DbAccount, ForkDb, default_account}
use tevm.ForkDb.Accounts.{insert_contract, account_or_default}
use tevm.ForkDb.Commit.{Account, destroyed, committed, commit_account, commit}
use tevm.ForkDb.Database.{held_slot}
use tevm.ForkDb.Laws.{insert_contract-accounts, insert_contract-db}
use tevm.Prelude.{
  ℕ, ◌≡◌, refl, sym, ap, ◌∙◌, not, [], ◌∷◌, Option, none, some, arith, ◌==◌, ◌||◌, ==_iff,
  unwrap_or, Bool-cases, inl, inr, if◌then◌else◌, HashMap,
}
use tevm.Prelude.Maps
use tevm.Prelude.Maps.{get-nil, get-insert}

-- a hash map yields each of its keys once
pub data KeysAreDistinct {V : Type 0} : HashMap V → Type 0 where
  empty : KeysAreDistinct []
  entry :
      (k : ℕ) (v : V) (m : HashMap V)
      → Maps.get m k ≡ none
      → KeysAreDistinct m
      → KeysAreDistinct ((k, v) ∷ m)

module _ (ext : Externals) where
  -- What an address holds after a change of it, from what it held before.
  unfoldable pub changed : ForkDb → Option Account → Option DbAccount → Option DbAccount
  changed db none old = old
  changed db (some account) old =
      let before : DbAccount = unwrap_or old (default_account ext) in
      if not account.is_touched
      then old
      else if account.is_selfdestructed
      then some (record {
        info = default_info ext;
        account_state = AccountState.not_existing;
        storage = [];
      })
      else some (record {
        info = (insert_contract ext account.info db).0;
        account_state =
            if account.is_created || is_storage_cleared before.account_state
            then AccountState.storage_cleared
            else AccountState.touched;
        storage = Maps.extend (if account.is_created then [] else before.storage) account.storage;
      })

  changed-db :
      (db db' : ForkDb) (change : Option Account) (old : Option DbAccount)
      → changed db change old ≡ changed db' change old
  unfolding changed
  changed-db db db' none old = refl
  changed-db db db' (some account) old = ground (arith, insert_contract-db ext account.info db db')

  account-commit_account :
      (k j : ℕ) (account : Account) (db : ForkDb)
      → Maps.get (commit_account ext k account db).accounts j ≡ (
          if k == j
          then changed db (some account) (Maps.get db.accounts k)
          else Maps.get db.accounts j)
  unfolding commit_account committed destroyed changed Maps.entry_or
  account-commit_account k j account db =
      let (info, db') = insert_contract ext account.info db in
      let new : DbAccount = committed ext (account_or_default ext db' k) info account in
      ground (
        arith,
        insert_contract-accounts ext account.info db,
        get-insert k j new db'.accounts,
        get-insert k j (destroyed ext) db.accounts,
      )

  changed-none : (db : ForkDb) (old : Option DbAccount) → changed db none old ≡ old
  unfolding changed
  changed-none db old = refl

  changed_here :
      (k : ℕ) (account : Account) (db : ForkDb)
      → Maps.get (commit_account ext k account db).accounts k
        ≡ changed db (some account) (Maps.get db.accounts k)
  changed_here k account db = ground (arith, account-commit_account k k account db)

  get-absent :
      {V : Type 0} (k j : ℕ) (v : V) (m : HashMap V)
      → Maps.get ((k, v) ∷ m) j ≡ (if k == j then some v else Maps.get m j)
  unfolding Maps.get
  get-absent k j v m = refl

  -- After `commit` of changes with distinct addresses, in whatever order they come, every address
  -- holds: what it held, if it was not changed or not touched; an emptied account marked
  -- `NotExisting`, if it was destroyed; and the new info over the old storage otherwise, or over no
  -- storage if the account was created.
  pub account-commit :
      (changes : HashMap Account) (db : ForkDb) (j : ℕ)
      → KeysAreDistinct changes
      → Maps.get (commit ext changes db).accounts j
        ≡ changed db (Maps.get changes j) (Maps.get db.accounts j)
  unfolding commit
  account-commit [] db j _ = sym (
      ap (λ c. changed db c (Maps.get db.accounts j)) (get-nil {V = Account} j)
      ∙ changed-none db (Maps.get db.accounts j))
  account-commit ((k, account) ∷ changes) db j (entry _ _ _ fresh distinct) =
      let db' : ForkDb = commit_account ext k account db in
      let later : Maps.get (commit ext changes db').accounts j
          ≡ changed db' (Maps.get changes j) (Maps.get db'.accounts j) =
        account-commit changes db' j distinct in
      let head = get-absent k j account changes in
      elim (Bool-cases (k == j)) [
        | inl same ↦
            let k≡j : k ≡ j = (==_iff k j).0 same in
            let absent : Maps.get changes j ≡ none = ap (Maps.get changes) (sym k≡j) ∙ fresh in
            let found : Maps.get ((k, account) ∷ changes) j ≡ some account =
              ground (arith, head, same) in
            let here : Maps.get db'.accounts j
                ≡ changed db (some account) (Maps.get db.accounts j) =
              ap (Maps.get db'.accounts) (sym k≡j)
              ∙ changed_here k account db
              ∙ ap (λ a. changed db (some account) (Maps.get db.accounts a)) k≡j in
            later
            ∙ ap (λ c. changed db' c (Maps.get db'.accounts j)) absent
            ∙ changed-none db' (Maps.get db'.accounts j)
            ∙ here
            ∙ ap (λ c. changed db c (Maps.get db.accounts j)) (sym found)
        | inr other ↦
            let rest : Maps.get ((k, account) ∷ changes) j ≡ Maps.get changes j =
              ground (arith, head, other) in
            let here : Maps.get db'.accounts j ≡ Maps.get db.accounts j =
              ground (arith, other, account-commit_account k j account db) in
            later
            ∙ ap (changed db' (Maps.get changes j)) here
            ∙ changed-db db' db (Maps.get changes j) (Maps.get db.accounts j)
            ∙ ap (λ c. changed db c (Maps.get db.accounts j)) (sym rest)
      ]

  get-extend :
      (m xs : HashMap ℕ) (i : ℕ)
      → KeysAreDistinct xs
      → Maps.get (Maps.extend m xs) i
        ≡ (elim (Maps.get xs i) [ some v ↦ some v | none ↦ Maps.get m i ])
  unfolding Maps.extend
  get-extend m [] i _ = ground (arith, get-nil {V = ℕ} i)
  get-extend m ((k, v) ∷ xs) i (entry _ _ _ fresh distinct) = elim (Bool-cases (k == i)) [
    | inl same ↦
        let absent : Maps.get xs i ≡ none = ap (Maps.get xs) (sym ((==_iff k i).0 same)) ∙ fresh in
        ground (
          arith,
          same,
          absent,
          get-extend (Maps.insert k v m) xs i distinct,
          get-absent k i v xs,
          get-insert k i v m,
        )
    | inr other ↦ ground (
      arith,
      other,
      get-extend (Maps.insert k v m) xs i distinct,
      get-absent k i v xs,
      get-insert k i v m,
    )
  ]

  -- the value of a slot after a change of its account, from its value before
  abbrev pub changed_slot : Option Account → ℕ → Option ℕ → Option ℕ
  changed_slot none i old = old
  changed_slot (some account) i old =
      if not account.is_touched
      then old
      else if account.is_selfdestructed
      then none
      else elim (Maps.get account.storage i) [
        | some value ↦ some value
        | none ↦ if account.is_created then none else old
      ]

  -- the slot of an account, if there is one
  abbrev slot_of : ℕ → Option DbAccount → Option ℕ
  slot_of i held = elim held [ none ↦ none | some account ↦ Maps.get account.storage i ]

  slot_of-changed :
      (i : ℕ) (db : ForkDb) (change : Option Account) (old : Option DbAccount)
      → ((account : Account) → change ≡ some account → KeysAreDistinct account.storage)
      → slot_of i (changed db change old) ≡ changed_slot change i (slot_of i old)
  unfolding changed
  slot_of-changed i db none old slots = refl
  slot_of-changed i db (some account) none slots =
      ground (arith, get-nil {V = ℕ} i, get-extend [] account.storage i (slots account refl))
  slot_of-changed i db (some account) (some before) slots = ground (
    arith,
    get-nil {V = ℕ} i,
    get-extend [] account.storage i (slots account refl),
    get-extend before.storage account.storage i (slots account refl),
  )

  -- After `commit` of changes with distinct addresses and slots, a slot holds: the new value, if its
  -- account was touched, not destroyed, and the slot is among its changes; nothing, if the account
  -- was destroyed, or created without the slot; and what it held before in every other case.
  pub held_slot-commit :
      (changes : HashMap Account) (db : ForkDb) (j i : ℕ)
      → KeysAreDistinct changes
      → ((account : Account) → Maps.get changes j ≡ some account → KeysAreDistinct account.storage)
      → held_slot (commit ext changes db) j i
        ≡ changed_slot (Maps.get changes j) i (held_slot db j i)
  unfolding held_slot
  held_slot-commit changes db j i distinct slots =
      ap (slot_of i) (account-commit changes db j distinct)
      ∙ slot_of-changed i db (Maps.get changes j) (Maps.get db.accounts j) slots
