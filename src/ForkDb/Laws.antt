-- ===== src/ForkDb/Laws.antt =====
-- src/fork_db.rs: lemmas on `insert_contract`, `insert_account_info` and the writes of slots.
use tevm.External.{Externals}
use tevm.ForkDb.{AccountInfo, DbAccount, ForkDb, default_account}
use tevm.ForkDb.Accounts.{insert_code, insert_contract, insert_account_info, write_slot}
use tevm.ForkDb.Database.{held_slot}
use tevm.Prelude.{
  ℕ, ◌≡◌, refl, ◌&&◌, List, [], ◌∷◌, Option, none, some, arith, ◌==◌, Option-cases, inl, inr,
  if◌then◌else◌,
}
use tevm.Prelude.Maps
use tevm.Prelude.Maps.{get-nil, get-insert, get-remove, contains_key-insert, set_contains-insert}

module _ (ext : Externals) where
  insert_code-accounts :
      (code : Option (List ℕ)) (info : AccountInfo) (db : ForkDb)
      → (insert_code ext code info db).1.accounts ≡ db.accounts
  unfolding insert_code
  insert_code-accounts none info db = refl
  insert_code-accounts (some []) info db = refl
  insert_code-accounts (some (b ∷ code)) info db = ground arith

  -- `insert_contract` touches no account.
  pub insert_contract-accounts :
      (info : AccountInfo) (db : ForkDb) → (insert_contract ext info db).1.accounts ≡ db.accounts
  unfolding insert_contract
  insert_contract-accounts info db = insert_code-accounts info.code info db

  fork_enabled-insert_code :
      (code : Option (List ℕ)) (info : AccountInfo) (db : ForkDb)
      → (insert_code ext code info db).1.fork_enabled ≡ db.fork_enabled
  unfolding insert_code
  fork_enabled-insert_code none info db = refl
  fork_enabled-insert_code (some []) info db = refl
  fork_enabled-insert_code (some (b ∷ code)) info db = ground arith

  pub fork_enabled-insert_account_info :
      (a : ℕ) (info : AccountInfo) (db : ForkDb)
      → (insert_account_info ext a info db).fork_enabled ≡ db.fork_enabled
  unfolding insert_account_info insert_contract
  fork_enabled-insert_account_info a info db = fork_enabled-insert_code info.code info db

  insert_code-db :
      (code : Option (List ℕ)) (info : AccountInfo) (db db' : ForkDb)
      → (insert_code ext code info db).0 ≡ (insert_code ext code info db').0
  unfolding insert_code
  insert_code-db none info db db' = refl
  insert_code-db (some []) info db db' = refl
  insert_code-db (some (b ∷ code)) info db db' = refl

  -- The account info that `insert_contract` leaves does not depend on the database.
  pub insert_contract-db :
      (info : AccountInfo) (db db' : ForkDb)
      → (insert_contract ext info db).0 ≡ (insert_contract ext info db').0
  unfolding insert_contract
  insert_contract-db info db db' = insert_code-db info.code info db db'

  -- A write to a slot is read back, and is seen by no other slot of any account.
  pub held_slot-write_slot :
      (a s v b t : ℕ) (db : ForkDb)
      → held_slot (write_slot ext a s v db) b t
        ≡ (if a == b && s == t then some v else held_slot db b t)
  unfolding held_slot write_slot Maps.entry_or
  held_slot-write_slot a s v b t db = elim (Option-cases (Maps.get db.accounts a)) [
    | inl none_yet ↦
        let new : DbAccount = record (default_account ext) { storage = Maps.insert s v [] } in
        ground
          (arith, none_yet, get-insert a b new db.accounts, get-insert s t v [], get-nil {V = ℕ} t)
    | inr (old, held) ↦
        let new : DbAccount = record old { storage = Maps.insert s v old.storage } in
        ground (arith, held, get-insert a b new db.accounts, get-insert s t v old.storage)
  ]
