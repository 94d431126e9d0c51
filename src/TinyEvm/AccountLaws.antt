-- ===== src/TinyEvm/AccountLaws.antt =====
-- src/lib.rs: writes of accounts and the reads after them.
use mathlib.Core.List.{append-nil}
use tevm.ForkDb.{AccountInfo, Context, DbAccount, ForkDb, default_account}
use tevm.ForkDb.Accounts.{insert_account_info, insert_contract, insert_code}
use tevm.ForkDb.Database
use tevm.ForkDb.Laws.{insert_contract-accounts}
use tevm.ForkDb.Reads.{basic_known}
use tevm.Prelude.{
  ℕ, ◌≡◌, refl, ap, ◌∙◌, Bool, false, ◌&&◌, List, [], ◌∷◌, Option, none, some, arith, ◌==◌,
  Option-cases, inl, inr, if◌then◌else◌,
}
use tevm.Prelude.Maps
use tevm.Prelude.Maps.{get-nil, get-insert, get-remove}
use tevm.Prelude.Outcome.{ok}
use tevm.TinyEvm.{TinyEvm, db_mut, run_db, world_of}
use tevm.TinyEvm.Accounts.{
  set_balance_of, set_account_balance, get_eth_balance, balance_of, info_of_balance,
  set_code_by_address, get_code_by_address, info_with_code, code_of, clone_in, clone_account,
  reset_account, default_balance,
}

module _ (cx : Context) where
  -- the account that `insert_account_info` leaves
  abbrev pub inserted_account : ℕ → AccountInfo → ForkDb → DbAccount
  inserted_account a info db =
      record (Maps.entry_or (default_account cx.ext) (insert_contract cx.ext info db).1.accounts
        a) { info = (insert_contract cx.ext info db).0 }

  pub account-insert_account_info :
      (a b : ℕ) (info : AccountInfo) (db : ForkDb)
      → Maps.get (insert_account_info cx.ext a info db).accounts b
        ≡ (if a == b then some (inserted_account a info db) else Maps.get db.accounts b)
  unfolding insert_account_info
  account-insert_account_info a b info db = ground (
    arith,
    insert_contract-accounts cx.ext info db,
    get-insert a b (inserted_account a info db) (insert_contract cx.ext info db).1.accounts,
  )

  -- `insert_contract` changes no more of an account info than the hash of its code
  insert_code-info :
      (code : Option (List ℕ)) (info : AccountInfo) (db : ForkDb)
      → ((insert_code cx.ext code info db).0.balance ≡ info.balance)
        × ((insert_code cx.ext code info db).0.nonce ≡ info.nonce)
        × ((insert_code cx.ext code info db).0.code ≡ info.code)
  unfolding insert_code
  insert_code-info none info db = (refl, refl, refl)
  insert_code-info (some []) info db = (refl, refl, refl)
  insert_code-info (some (b ∷ code)) info db = (refl, refl, refl)

  insert_contract-info :
      (info : AccountInfo) (db : ForkDb)
      → ((insert_contract cx.ext info db).0.balance ≡ info.balance)
        × ((insert_contract cx.ext info db).0.nonce ≡ info.nonce)
        × ((insert_contract cx.ext info db).0.code ≡ info.code)
  unfolding insert_contract
  insert_contract-info info db = insert_code-info info.code info db

  get_eth_balance_known :
      (a : ℕ) (t : TinyEvm cx) {account : DbAccount}
      → Maps.get t.db.accounts a ≡ some account
      → get_eth_balance cx a t ≡ (ok account.info.balance, t)
  unfolding get_eth_balance run_db balance_of
  get_eth_balance_known a t h = rw (basic_known cx a (world_of cx t) h) refl

  padding-insert_code :
      (code : Option (List ℕ)) (info : AccountInfo) (db : ForkDb)
      → (insert_code cx.ext code info db).0.padding ≡ info.padding
  unfolding insert_code
  padding-insert_code none info db = refl
  padding-insert_code (some []) info db = refl
  padding-insert_code (some (b ∷ code)) info db = refl

  padding-insert_contract :
      (info : AccountInfo) (db : ForkDb) → (insert_contract cx.ext info db).0.padding ≡ info.padding
  unfolding insert_contract
  padding-insert_contract info db = padding-insert_code info.code info db

  -- raw code is returned as it is
  code_of_raw :
      (info : AccountInfo) (code : List ℕ)
      → info.code ≡ some code
      → info.padding ≡ []
      → code_of (some info) ≡ code
  code_of_raw info code has raw = ground (arith, has, raw, append-nil code)

  get_code_known :
      (a : ℕ) (t : TinyEvm cx) {account : DbAccount}
      → Maps.get t.db.accounts a ≡ some account
      → get_code_by_address cx a t ≡ (ok (code_of (some account.info)), t)
  unfolding get_code_by_address run_db
  get_code_known a t h = rw (basic_known cx a (world_of cx t) h) refl

  set_balance_of-account :
      (a b balance : ℕ) (db : ForkDb)
      → Maps.get (set_balance_of cx a balance db).accounts b ≡ (
          if a == b
          then (elim (Maps.get db.accounts a) [
            | some account ↦
                some (record account { info = record account.info { balance = balance } })
            | none ↦ some (inserted_account a (info_of_balance cx balance) db)
          ])
          else Maps.get db.accounts b)
  unfolding set_balance_of
  set_balance_of-account a b balance db = elim (Option-cases (Maps.get db.accounts a)) [
    | inl absent ↦
        ground (arith, absent, account-insert_account_info a b (info_of_balance cx balance) db)
    | inr (account, held) ↦
        let new : DbAccount = record account { info = record account.info { balance = balance } } in
        ground (arith, held, get-insert a b new db.accounts)
  ]

  set_balance_of-holds :
      (a balance : ℕ) (db : ForkDb)
      → (account : DbAccount) × (Maps.get (set_balance_of cx a balance db).accounts a
          ≡ some account)
        × (account.info.balance ≡ balance)
  set_balance_of-holds a balance db = elim (Option-cases (Maps.get db.accounts a)) [
    | inl absent ↦ (
      inserted_account a (info_of_balance cx balance) db,
      ground (arith, absent, set_balance_of-account a a balance db),
      (insert_contract-info (info_of_balance cx balance) db).0,
    )
    | inr (account, held) ↦ (
      record account { info = record account.info { balance = balance } },
      ground (arith, held, set_balance_of-account a a balance db),
      refl,
    )
  ]

  set_balance_of-slots :
      (a b balance i : ℕ) (db : ForkDb)
      → Database.held_slot (set_balance_of cx a balance db) b i ≡ Database.held_slot db b i
  unfolding Database.held_slot Maps.entry_or
  set_balance_of-slots a b balance i db = ground (
    arith,
    set_balance_of-account a b balance db,
    insert_contract-accounts cx.ext (info_of_balance cx balance) db,
    get-nil {V = ℕ} i,
  )

  -- A balance that was set is read back, without an error and without asking the node; every other
  -- account is kept, and so is every slot of storage.
  pub set_account_balance_reads :
      (a b balance i : ℕ) (t : TinyEvm cx)
      → let t' = (set_account_balance cx a balance t).1 in
        (get_eth_balance cx a t' ≡ (ok balance, t'))
        × ((a == b) ≡ false → Maps.get t'.db.accounts b ≡ Maps.get t.db.accounts b)
        × (Database.held_slot t'.db b i ≡ Database.held_slot t.db b i)
  unfolding set_account_balance db_mut
  set_account_balance_reads a b balance i t =
      let (account, held, same) = set_balance_of-holds a balance t.db in
      let t' : TinyEvm cx = (set_account_balance cx a balance t).1 in
      (
        get_eth_balance_known a t' held ∙ ap (λ x. (ok x, t')) same,
        λ other. ground (arith, other, set_balance_of-account a b balance t.db),
        set_balance_of-slots a b balance i t.db,
      )

  -- Code that was set is read back, without an error and without asking the node; the account keeps
  -- its balance and nonce, and a new one has a balance of 10^12; every other account is kept.
  pub set_code_by_address_reads :
      (a b : ℕ) (code : List ℕ) (t : TinyEvm cx)
      → let t' = (set_code_by_address cx a code t).1 in
        (get_code_by_address cx a t' ≡ (ok code, t'))
        × (get_eth_balance cx a t' ≡ (
          ok (elim (Maps.get t.db.accounts a) [
            | none ↦ 1_000_000_000_000
            | some account ↦ account.info.balance
          ]),
          t',
        ))
        × ((a == b) ≡ false → Maps.get t'.db.accounts b ≡ Maps.get t.db.accounts b)
  unfolding set_code_by_address db_mut info_with_code
  set_code_by_address_reads a b code t =
      let t' : TinyEvm cx = (set_code_by_address cx a code t).1 in
      let info : AccountInfo = info_with_code cx code (Maps.get t.db.accounts a) in
      let held : Maps.get t'.db.accounts a ≡ some (inserted_account a info t.db) =
        ground (arith, account-insert_account_info a a info t.db) in
      let (balance, _, kept) = insert_contract-info info t.db in
      let info_code : info.code ≡ some code = elim (Option-cases (Maps.get t.db.accounts a)) [
        | inl absent ↦ ground (arith, absent)
        | inr (_, old) ↦ ground (arith, old)
      ] in
      let info_raw : info.padding ≡ [] = elim (Option-cases (Maps.get t.db.accounts a)) [
        | inl absent ↦ ground (arith, absent)
        | inr (_, old) ↦ ground (arith, old)
      ] in
      let info_balance : info.balance ≡ (elim (Maps.get t.db.accounts a) [
        | none ↦ 1_000_000_000_000
        | some account ↦ account.info.balance
      ]) =
        elim (Option-cases (Maps.get t.db.accounts a)) [
          | inl absent ↦ ground (arith, absent)
          | inr (_, old) ↦ ground (arith, old)
        ] in
      (
        get_code_known a t' held
            ∙ ap (λ c. (ok c, t'))
                (code_of_raw (insert_contract cx.ext info t.db).0 code (kept ∙ info_code)
                  (padding-insert_contract info t.db ∙ info_raw)),
        get_eth_balance_known a t' held ∙ ap (λ x. (ok x, t')) (balance ∙ info_balance),
        λ other. ground (arith, other, account-insert_account_info a b info t.db),
      )

  -- After `clone_account` the target holds the account of the source, if there is one, and else
  -- nothing changes; a source that is to be deleted holds nothing, also when it is the target; every
  -- other account is kept.
  pub clone_account_leaves :
      (from to : ℕ) (delete : Bool) (t : TinyEvm cx) (j : ℕ)
      → Maps.get (clone_account cx from to delete t).1.db.accounts j
        ≡ (elim (Maps.get t.db.accounts from) [
          | none ↦ Maps.get t.db.accounts j
          | some account ↦
              if delete && from == j
              then none
              else if to == j
              then some account
              else Maps.get t.db.accounts j
        ])
  unfolding clone_account clone_in db_mut
  clone_account_leaves from to delete t j = elim (Option-cases (Maps.get t.db.accounts from)) [
    | inl absent ↦ ground (arith, absent)
    | inr (account, held) ↦ ground (
      arith,
      held,
      get-insert to j account t.db.accounts,
      get-remove from j (Maps.insert to account t.db.accounts),
    )
  ]

  -- `reset_account` of an account that the database holds gives it the default balance, the nonce
  -- zero and the default code, and keeps its storage.
  pub reset_account_leaves :
      (a : ℕ) (t : TinyEvm cx) {old : DbAccount}
      → Maps.get t.db.accounts a ≡ some old
      → (new : DbAccount) × (Maps.get (reset_account cx a t).1.db.accounts a ≡ some new)
        × (new.info.balance ≡ default_balance)
        × (new.info.nonce ≡ 0)
        × (new.info.code ≡ cx.ext.default_code)
        × (new.storage ≡ old.storage)
  unfolding reset_account db_mut Maps.entry_or
  reset_account_leaves a t {old} held =
      let info : AccountInfo = info_of_balance cx default_balance in
      let (balance, nonce, code) = insert_contract-info info t.db in
      (
        inserted_account a info t.db,
        ground (arith, held, account-insert_account_info a a info t.db),
        balance,
        nonce,
        code,
        ground (arith, held, insert_contract-accounts cx.ext info t.db),
      )

  -- the balance that is read of an account that was inserted
  pub get_eth_balance-insert_account_info :
      (a : ℕ) (info : AccountInfo) (t : TinyEvm cx) (db : ForkDb)
      → t.db ≡ insert_account_info cx.ext a info db
      → get_eth_balance cx a t ≡ (ok info.balance, t)
  get_eth_balance-insert_account_info a info t db e =
      let held : Maps.get t.db.accounts a ≡ some (inserted_account a info db) =
        ap (λ d. Maps.get d.accounts a) e
        ∙ ground (arith, account-insert_account_info a a info db) in
      get_eth_balance_known a t held ∙ ap (λ x. (ok x, t)) (insert_contract-info info db).0
