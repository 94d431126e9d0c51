-- ===== src/ForkDb/Reads.antt =====
-- src/fork_db.rs: the reads, offline and from the fork.
use tevm.External.{HashesEmpty}
use tevm.ForkDb.{AccountInfo, Context, DbAccount, ForkDb, World, default_account}
use tevm.ForkDb.Accounts.{insert_code, insert_contract, insert_account_info}
use tevm.ForkDb.Database.{
  Fetched, fetch_account, fetched_info, is_remote, on_db, basic, load_account, record_loaded,
  storage, read_slot, held_slot, block_hash,
}
use tevm.Prelude.{
  ℕ, ◌≡◌, refl, sym, ap, ◌∙◌, Bool, true, false, List, [], ◌∷◌, Option, none, some, arith, ltb,
  unwrap_or, Bool-cases, Option-cases, inl, inr,
}
use tevm.Prelude.Maps
use tevm.Prelude.Maps.{get-nil, get-insert, get-remove, contains_key-insert, set_contains-insert}
use tevm.Prelude.Outcome.{Outcome, ok, >>=-eq-ok, ok-injective}

module _ (cx : Context) where
  pub basic_known :
      (a : ℕ) (w : World cx) {account : DbAccount}
      → Maps.get w.db.accounts a ≡ some account
      → basic cx a w ≡ (ok (some account.info), w)
  unfolding basic
  basic_known a w h = ground (arith, h)

  basic_offline :
      (a : ℕ) (w : World cx)
      → w.db.fork_enabled ≡ false
      → Maps.get w.db.accounts a ≡ none
      → basic cx a w ≡ (ok none, w)
  unfolding basic
  basic_offline a w off h = ground (arith, h, off)

  -- Without a fork no read touches the world: an account is looked up, a slot that is not held is
  -- zero, and the hash of an unknown block is that of its number.
  pub reads_offline :
      (a i n : ℕ) (w : World cx)
      → w.db.fork_enabled ≡ false
      → (basic cx a w ≡ (
        ok (elim (Maps.get w.db.accounts a) [ none ↦ none | some account ↦ some account.info ]),
        w,
      ))
        × (storage cx a i w ≡ (ok (unwrap_or (held_slot w.db a i) 0), w))
        × (block_hash cx n w ≡ (
          ok (unwrap_or (Maps.get w.db.block_hashes n) (cx.ext.keccak256 (cx.ext.word_bytes n))),
          w,
        ))
  unfolding basic storage read_slot block_hash
  reads_offline a i n w off = (ground (arith, off), ground (arith, off), ground (arith, off))

  -- the account info that a load writes is the one that it returns
  insert_contract-loaded :
      (info : AccountInfo) (code : List ℕ) (db : ForkDb)
      → HashesEmpty cx.ext
      → info.code ≡ some code
      → info.code_hash ≡ cx.ext.keccak256 code
      → (insert_contract cx.ext info db).0 ≡ info
  unfolding insert_contract insert_code
  insert_contract-loaded info [] db law c h = ground (arith, c, h, law.empty)
  insert_contract-loaded info (b ∷ code) db law c h = ground (arith, c, h)

  -- the account that a load leaves
  abbrev loaded_account : ℕ → AccountInfo → ForkDb → DbAccount
  loaded_account a info db =
      record (Maps.entry_or (default_account cx.ext) (insert_contract cx.ext info db).1.accounts
        a) { info = (insert_contract cx.ext info db).0 }

  account-record_loaded :
      (a : ℕ) (info : AccountInfo) (remote : Bool) (db : ForkDb)
      → Maps.get (record_loaded cx a info remote db).accounts a ≡ some (loaded_account a info db)
  unfolding record_loaded insert_account_info
  account-record_loaded a info remote db =
      ground (
        arith,
        get-insert a a (loaded_account a info db) (insert_contract cx.ext info db).1.accounts,
      )

  pub load_account-inverse :
      (a : ℕ) (w : World cx) {found : Option AccountInfo} {w' : World cx}
      → load_account cx a w ≡ (ok found, w')
      → (f : Fetched) × (w1 : World cx) × (fetch_account cx a w ≡ (ok f, w1))
        × (found ≡ some (fetched_info cx f))
        × (w'
            ≡ on_db cx
                (record_loaded cx a (fetched_info cx f) (is_remote f.nonce f.balance f.code))
                w1)
  unfolding load_account
  load_account-inverse a w e =
      let (f, w1, e1, k) = >>=-eq-ok (fetch_account cx a) _ w e in
      (f, w1, e1, ok-injective (ap (λ p. p.0) (sym k)), ap (λ p. p.1) (sym k))

  basic_ignored :
      (a : ℕ) (w : World cx)
      → Maps.get w.db.accounts a ≡ none
      → w.db.fork_enabled ≡ true
      → ltb w.db.max_fork_depth w.call_depth ≡ true
      → basic cx a w ≡ (
        ok none,
        record w {
          db = record w.db { ignored_addresses = Maps.set_insert a w.db.ignored_addresses };
        },
      )
  unfolding basic
  basic_ignored a w h on deep = ground (arith, h, on, deep)

  basic_loading :
      (a : ℕ) (w : World cx)
      → Maps.get w.db.accounts a ≡ none
      → w.db.fork_enabled ≡ true
      → ltb w.db.max_fork_depth w.call_depth ≡ false
      → basic cx a w ≡ load_account cx a w
  unfolding basic
  basic_loading a w h on shallow = ground (arith, h, on, shallow)

  -- the ways through `basic`
  pub data Basic (a : ℕ) (w : World cx) : Outcome (Option AccountInfo) × World cx → Type 0 where
    known :
        (account : DbAccount)
        → Maps.get w.db.accounts a ≡ some account
        → Basic a w (ok (some account.info), w)
    offline : Maps.get w.db.accounts a ≡ none → w.db.fork_enabled ≡ false → Basic a w (ok none, w)
    ignored :
        Maps.get w.db.accounts a ≡ none
        → w.db.fork_enabled ≡ true
        → ltb w.db.max_fork_depth w.call_depth ≡ true
        → Basic a w (
          ok none,
          record w {
            db = record w.db { ignored_addresses = Maps.set_insert a w.db.ignored_addresses };
          },
        )
    loading : Basic a w (load_account cx a w)

  pub basic-Basic : (a : ℕ) (w : World cx) → Basic a w (basic cx a w)
  basic-Basic a w = elim (Option-cases (Maps.get w.db.accounts a)) [
    | inr (account, e) ↦ rw (basic_known a w e) (known account e)
    | inl e ↦ elim (Bool-cases w.db.fork_enabled) [
      | inl on ↦ elim (Bool-cases (ltb w.db.max_fork_depth w.call_depth)) [
        | inl deep ↦ rw (basic_ignored a w e on deep) (ignored e on deep)
        | inr shallow ↦ rw (basic_loading a w e on shallow) loading
      ]
      | inr off ↦ rw (basic_offline a w off e) (offline e off)
    ]
  ]

  pub ok-injective_pair :
      {A : Type 0} {x y : A} {w w' : World cx}
      → ◌≡◌ {A = Outcome A × World cx} (ok x, w) (ok y, w')
      → (x ≡ y) × (w ≡ w')
  ok-injective_pair e = (ok-injective (ap (λ p. p.0) e), ap (λ p. p.1) e)

  loaded_settles :
      (a : ℕ) (w : World cx) {found : Option AccountInfo} {w' : World cx}
      → HashesEmpty cx.ext
      → load_account cx a w ≡ (ok found, w')
      → basic cx a w' ≡ (ok found, w')
  loaded_settles a w {found} {w'} law e =
      let (f, w1, e1, same, kept) = load_account-inverse a w e in
      let info : AccountInfo = fetched_info cx f in
      let held : Maps.get w'.db.accounts a ≡ some (loaded_account a info w1.db) =
        ap (λ v. Maps.get v.db.accounts a) kept
        ∙ account-record_loaded a info (is_remote f.nonce f.balance f.code) w1.db in
      let info_kept : (insert_contract cx.ext info w1.db).0 ≡ info =
        insert_contract-loaded info f.code w1.db law refl refl in
      basic_known a w' held
      ∙ ap (λ i. (ok (some i), w')) info_kept
      ∙ ap (λ o. (ok o, w')) (sym same)

  -- being past the depth stays so, and the address is ignored already
  ignored_settles :
      (a : ℕ) (w : World cx)
      → Maps.get w.db.accounts a ≡ none
      → w.db.fork_enabled ≡ true
      → ltb w.db.max_fork_depth w.call_depth ≡ true
      → basic cx a (record w {
        db = record w.db { ignored_addresses = Maps.set_insert a w.db.ignored_addresses };
      })
        ≡ basic cx a w
  unfolding basic Maps.set_insert
  ignored_settles a w h on deep =
      ground (arith, h, on, deep, set_contains-insert a a w.db.ignored_addresses)

  -- Reads of an account settle: when `basic` returns, from any state and after any loading, a second
  -- `basic` of that address returns the same and changes nothing. The hash of no bytes is assumed to
  -- be the constant that stands for it.
  pub basic_settles :
      (a : ℕ) (w : World cx) {found : Option AccountInfo} {w' : World cx}
      → HashesEmpty cx.ext
      → basic cx a w ≡ (ok found, w')
      → basic cx a w' ≡ (ok found, w')
  basic_settles a w {found} {w'} law = go (basic-Basic a w)
    where
      go :
          {r : Outcome (Option AccountInfo) × World cx}
          → Basic a w r
          → r ≡ (ok found, w')
          → basic cx a w' ≡ (ok found, w')
      go (known account h) e =
          let (same, kept) = ok-injective_pair e in
          ap (basic cx a) (sym kept) ∙ basic_known a w h ∙ e
      go (offline h off) e =
          let (same, kept) = ok-injective_pair e in
          ap (basic cx a) (sym kept) ∙ basic_offline a w off h ∙ e
      go (ignored h on deep) e =
          let (same, kept) = ok-injective_pair e in
          ap (basic cx a) (sym kept)
          ∙ ignored_settles a w h on deep
          ∙ basic_ignored a w h on deep
          ∙ e
      go loading e = loaded_settles a w law e
