-- ===== src/ForkDb/Contracts.antt =====
-- src/fork_db.rs: the code of accounts and the contracts that are filed for it, in the operations
-- on accounts and in `commit`.
use mathlib.Core.Path.{subst}
use tevm.External.{Externals}
use tevm.ForkDb.{AccountInfo, DbAccount, ForkDb, default_account}
use tevm.ForkDb.Accounts.{
  account_or_default, filed_hash, insert_account_info, insert_code, insert_contract,
  or_insert_contract, set_account, write_slot,
}
use tevm.ForkDb.Commit.{Account, commit, commit_account, committed, destroyed}
use tevm.ForkDb.Laws.{insert_contract-accounts}
use tevm.Prelude.{
  ℕ, ◌≡◌, ◌⊎◌, inl, inr, refl, sym, ap, ◌∙◌, Bool-cases, true, not, List, [], ◌∷◌, Option, none,
  some, arith, ◌==◌, Option-cases, if◌then◌else◌, if_both, HashMap,
}
use tevm.Prelude.Maps
use tevm.Prelude.Maps.{contains_key-insert, entry_or_lem, get-insert, get-remove}

module _ (ext : Externals) where
  -- A hash that is given with nonempty code is that of the code, or the one of no bytes, which
  -- `insert_contract` replaces.
  abbrev pub MatchesCode : AccountInfo → Type 0
  MatchesCode info =
      (b : ℕ) (code : List ℕ)
      → info.code ≡ some (b ∷ code)
      → (info.code_hash ≡ ext.keccak_empty) ⊎ (info.code_hash ≡ ext.keccak256 (b ∷ code))

  -- The info has the hash of no bytes, or it carries the code of its hash, and a contract is filed
  -- under the hash.
  abbrev pub HasCode : HashMap (List ℕ) → AccountInfo → Type 0
  HasCode contracts info =
      (info.code_hash ≡ ext.keccak_empty)
      ⊎ (Maps.contains_key contracts info.code_hash ≡ true)
        × ((code : List ℕ) × (info.code ≡ some code) × (ext.keccak256 code ≡ info.code_hash))

  -- every account of the database has its code
  abbrev pub HoldsCode : ForkDb → Type 0
  HoldsCode db =
      (a : ℕ) (account : DbAccount)
      → Maps.get db.accounts a ≡ some account
      → HasCode db.contracts account.info

  -- the contracts of one map are keys of another
  abbrev Grows : HashMap (List ℕ) → HashMap (List ℕ) → Type 0
  Grows old new = (h : ℕ) → Maps.contains_key old h ≡ true → Maps.contains_key new h ≡ true

  HasCode-Grows :
      (old new : HashMap (List ℕ)) (info : AccountInfo)
      → Grows old new
      → HasCode old info
      → HasCode new info
  HasCode-Grows old new info grows (inl empty) = inl empty
  HasCode-Grows old new info grows (inr (filed, code)) = inr (grows info.code_hash filed, code)

  contains_key-or_insert_contract :
      (h k : ℕ) (code : List ℕ) (db : ForkDb)
      → Maps.contains_key (or_insert_contract ext h code db).contracts k
        ≡ (if h == k then true else Maps.contains_key db.contracts k)
  unfolding or_insert_contract Maps.contains_key
  contains_key-or_insert_contract h k code db = elim (Option-cases (Maps.get db.contracts h)) [
    | inl none_yet ↦ ground (arith, none_yet, get-insert h k code db.contracts)
    | inr (old, held) ↦ ground (arith, held)
  ]

  insert_code-Grows :
      (code : Option (List ℕ)) (info : AccountInfo) (db : ForkDb)
      → Grows db.contracts (insert_code ext code info db).1.contracts
  unfolding insert_code
  insert_code-Grows none info db h held = held
  insert_code-Grows (some []) info db h held = held
  insert_code-Grows (some (b ∷ code)) info db h held =
      let hash = filed_hash ext info.code_hash (b ∷ code) in
      ground (arith, held, contains_key-or_insert_contract hash h (b ∷ code) db)

  insert_code-HasCode :
      (code : Option (List ℕ)) (info : AccountInfo) (db : ForkDb)
      → info.code ≡ code
      → MatchesCode info
      → HasCode (insert_code ext code info db).1.contracts (insert_code ext code info db).0
  unfolding insert_code filed_hash
  insert_code-HasCode none info db e matches = inl refl
  insert_code-HasCode (some []) info db e matches = inl refl
  insert_code-HasCode (some (b ∷ code)) info db e matches =
      let hash = filed_hash ext info.code_hash (b ∷ code) in
      let filed : Maps.contains_key (or_insert_contract ext hash (b ∷ code) db).contracts hash
          ≡ true =
        ground (arith, contains_key-or_insert_contract hash hash (b ∷ code) db) in
      let is_hash : ext.keccak256 (b ∷ code) ≡ hash = elim (matches b code e) [
        | inl empty ↦ ground (arith, empty)
        | inr same ↦ ground (arith, same)
      ] in
      inr (filed, (b ∷ code, e, is_hash))

  pub set_account-HoldsCode :
      (address : ℕ) (account : DbAccount) (db : ForkDb)
      → HoldsCode db
      → HasCode db.contracts account.info
      → HoldsCode (set_account ext address account db)
  set_account-HoldsCode address account db holds has a found h = elim (Bool-cases (address == a)) [
    | inl same ↦
        let e : account ≡ found =
          ground (arith, same, h, get-insert address a account db.accounts) in
        subst (λ x. HasCode db.contracts x.info) e has
    | inr other ↦ holds a found (ground (arith, other, h, get-insert address a account db.accounts))
  ]

  -- Forgetting accounts keeps the code of the others.
  pub forget-HoldsCode :
      (address : ℕ) (db : ForkDb)
      → HoldsCode db
      → HoldsCode (record db { accounts = Maps.remove address db.accounts })
  forget-HoldsCode address db holds a found h = holds a found (elim (Bool-cases (address == a)) [
    | inl same ↦ ground (arith, same, h, get-remove address a db.accounts)
    | inr other ↦ ground (arith, other, h, get-remove address a db.accounts)
  ])

  account_or_default-HasCode :
      (db : ForkDb) (address : ℕ)
      → HoldsCode db
      → HasCode db.contracts (account_or_default ext db address).info
  account_or_default-HasCode db address holds =
      entry_or_lem (λ account. HasCode db.contracts account.info) (default_account ext) db.accounts
        address (inl refl) (holds address)

  insert_contract-HoldsCode :
      (info : AccountInfo) (db : ForkDb) → HoldsCode db → HoldsCode (insert_contract ext info db).1
  unfolding insert_contract
  insert_contract-HoldsCode info db holds a account h =
      HasCode-Grows db.contracts (insert_code ext info.code info db).1.contracts account.info
        (insert_code-Grows info.code info db)
        (holds a account (ap (λ m. Maps.get m a) (sym (insert_contract-accounts ext info db)) ∙ h))

  insert_contract-HasCode :
      (info : AccountInfo) (db : ForkDb)
      → MatchesCode info
      → HasCode (insert_contract ext info db).1.contracts (insert_contract ext info db).0
  unfolding insert_contract
  insert_contract-HasCode info db matches = insert_code-HasCode info.code info db refl matches

  pub insert_account_info-HoldsCode :
      (address : ℕ) (info : AccountInfo) (db : ForkDb)
      → MatchesCode info
      → HoldsCode db
      → HoldsCode (insert_account_info ext address info db)
  unfolding insert_account_info
  insert_account_info-HoldsCode address info db matches holds =
      let (info', db') = insert_contract ext info db in
      set_account-HoldsCode address (record (account_or_default ext db' address) { info = info' })
        db' (insert_contract-HoldsCode info db holds) (insert_contract-HasCode info db matches)

  -- A write that keeps the info of the account keeps the code of all.
  pub same_info-HoldsCode :
      (address : ℕ) (account : DbAccount) (db : ForkDb)
      → account.info ≡ (account_or_default ext db address).info
      → HoldsCode db
      → HoldsCode (set_account ext address account db)
  same_info-HoldsCode address account db same holds =
      set_account-HoldsCode address account db holds
        (subst (HasCode db.contracts) (sym same) (account_or_default-HasCode db address holds))

  commit_account-HoldsCode :
      (address : ℕ) (account : Account) (db : ForkDb)
      → MatchesCode account.info
      → HoldsCode db
      → HoldsCode (commit_account ext address account db)
  unfolding commit_account committed destroyed
  commit_account-HoldsCode address account db matches holds =
      let (info, db') = insert_contract ext account.info db in
      if_both HoldsCode (not account.is_touched) holds (
        if_both HoldsCode account.is_selfdestructed
          (set_account-HoldsCode address (destroyed ext) db holds (inl refl))
          (set_account-HoldsCode address
            (committed ext (account_or_default ext db' address) info account) db'
            (insert_contract-HoldsCode account.info db holds)
            (insert_contract-HasCode account.info db matches)))

  -- The infos of the changes each have the hash of their code.
  abbrev pub AllMatch : HashMap Account → Type 0
  AllMatch [] = Unit {0}
  AllMatch ((_, account) ∷ changes) = MatchesCode account.info × AllMatch changes

  pub commit-HoldsCode :
      (changes : HashMap Account) (db : ForkDb)
      → AllMatch changes
      → HoldsCode db
      → HoldsCode (commit ext changes db)
  unfolding commit
  commit-HoldsCode [] db matches holds = holds
  commit-HoldsCode ((a, account) ∷ changes) db (matches, rest) holds =
      commit-HoldsCode changes (commit_account ext a account db) rest
        (commit_account-HoldsCode a account db matches holds)

  pub write_slot-HoldsCode :
      (address slot value : ℕ) (db : ForkDb)
      → HoldsCode db
      → HoldsCode (write_slot ext address slot value db)
  unfolding write_slot
  write_slot-HoldsCode address slot value db holds =
      let account = account_or_default ext db address in
      same_info-HoldsCode address
        (record account { storage = Maps.insert slot value account.storage }) db refl holds
