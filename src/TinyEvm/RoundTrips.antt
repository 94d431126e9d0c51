-- ===== src/TinyEvm/RoundTrips.antt =====
-- src/lib.rs: what the methods for Python write, read back by the methods for Python.
use mathlib.Core.Path.{subst}
use tevm.Common.BigInts.{bigint_to_ruint_u256, ruint_u256_to_bigint, bigint_to_ruint_u256-ok}
use tevm.Common.Text.{trim_prefix}
use tevm.External.Numbers.{BigInt, Numbers, CountsBytes}
use tevm.External.Parsers.{Parsers}
use tevm.External.Printers.{Printers}
use tevm.ForkDb.{Context, World}
use tevm.ForkDb.Database.{storage, held_slot, basic, insert_account_storage}
use tevm.ForkDb.Slots.{insert_account_storage-held, insert_account_storage_reads, storage_held}
use tevm.Prelude.{
  ℕ, ◌≡◌, refl, sym, ap, ◌∙◌, false, ◌&&◌, List, some, Option-cases, inl, inr, String, arith, ◌==◌,
}
use tevm.Prelude.Maps
use tevm.Prelude.Outcome.{ok, Exec, continue-eq-ok, ok-injective}
use tevm.TinyEvm.{TinyEvm, world_of, run_db}
use tevm.TinyEvm.AccountLaws.{set_account_balance_reads, set_code_by_address_reads}
use tevm.TinyEvm.Accounts.{
  set_account_balance, set_code_by_address, set_storage_by_address, get_storage_by_address,
}
use tevm.TinyEvm.Wrappers.{set_balance, get_balance, set_storage, get_storage, set_code, get_code}

module _ (cx : Context) where
  -- a method of the database that returned, in its world
  run_db-ok :
      {A : Type 0} (m : Exec (World cx) A) (t : TinyEvm cx) {a : A} {t' : TinyEvm cx}
      → run_db cx m t ≡ (ok a, t')
      → (w : World cx) × (m (world_of cx t) ≡ (ok a, w)) × (t'.db ≡ w.db)
  unfolding run_db
  run_db-ok m t e =
      let (r, w) = m (world_of cx t) in (w, (λ i. ((e i).0, w)), ap (λ x. x.1.db) (sym e))

module _ (cx : Context) (n : Numbers) (parsers : Parsers) (law : CountsBytes n) where
  -- what is read of the state that a write leaves
  pub balance_back :
      (text : String) (balance : BigInt) (a b amount : ℕ) (t : TinyEvm cx)
      → parsers.address_from_str (trim_prefix text "0x") ≡ ok a
      → ruint_u256_to_bigint n amount ≡ balance
      → let t' = (set_account_balance cx a amount t).1 in
        (get_balance cx n parsers text t' ≡ (ok balance, t'))
        × ((a == b) ≡ false → Maps.get t'.db.accounts b ≡ Maps.get t.db.accounts b)
  unfolding get_balance
  balance_back text balance a b amount t parsed same =
      let (reads, keeps, _) = set_account_balance_reads cx a b amount 0 t in
      (rw (parsed, reads, same) refl, keeps)

  -- When `set_balance` returns, `get_balance` of the account returns the same integer, without asking
  -- the node, and every other account is kept.
  pub set_balance-get_balance :
      (text : String) (balance : BigInt) (a b : ℕ) (t : TinyEvm cx) {t' : TinyEvm cx}
      → parsers.address_from_str (trim_prefix text "0x") ≡ ok a
      → set_balance cx n parsers text balance t ≡ (ok tt, t')
      → (get_balance cx n parsers text t' ≡ (ok balance, t'))
        × ((a == b) ≡ false → Maps.get t'.db.accounts b ≡ Maps.get t.db.accounts b)
  unfolding set_balance
  set_balance-get_balance text balance a b t {t'} parsed e =
      let (addr, is_addr, k1) =
        continue-eq-ok (parsers.address_from_str (trim_prefix text "0x")) _ t e in
      let (amount, is_amount, k2) = continue-eq-ok (bigint_to_ruint_u256 n balance) _ t k1 in
      let is_a : a ≡ addr = ok-injective (sym parsed ∙ is_addr) in
      subst
        (λ u.
          (get_balance cx n parsers text u ≡ (ok balance, u))
          × ((a == b) ≡ false → Maps.get u.db.accounts b ≡ Maps.get t.db.accounts b))
        (ap (λ x. (set_account_balance cx x amount t).1) is_a ∙ ap (λ r. r.1) k2)
        (balance_back text balance a b amount t parsed
          (bigint_to_ruint_u256-ok n law balance is_amount))

  -- a slot that the database holds, as Python reads it
  get_storage_held :
      (addr_text index_text : String) (a i v : ℕ) (t : TinyEvm cx)
      → parsers.address_from_str (trim_prefix addr_text "0x") ≡ ok a
      → parsers.u256_from_hex (trim_prefix index_text "0x") ≡ ok i
      → held_slot t.db a i ≡ some v
      → get_storage cx n parsers addr_text index_text t ≡ ok (ruint_u256_to_bigint n v)
  unfolding get_storage get_storage_by_address held_slot
  get_storage_held addr_text index_text a i v t addr index held =
      elim (Option-cases (Maps.get t.db.accounts a)) [
        | inl absent ↦ ground (arith, absent, held)
        | inr (account, found) ↦ ground (arith, addr, index, found, held)
      ]

  set_storage_parsed :
      (addr_text index_text value_text : String) (a i v : ℕ) (t : TinyEvm cx)
      → parsers.address_from_str (trim_prefix addr_text "0x") ≡ ok a
      → parsers.u256_from_hex (trim_prefix index_text "0x") ≡ ok i
      → parsers.u256_from_hex (trim_prefix value_text "0x") ≡ ok v
      → set_storage cx parsers addr_text index_text value_text t
        ≡ run_db cx (insert_account_storage cx a i v) t
  unfolding set_storage set_storage_by_address
  set_storage_parsed addr_text index_text value_text a i v t addr index value =
      rw (addr, value, index) refl

  -- When `set_storage` returns, Python's `get_storage` of the slot returns the number that was
  -- written, and so does the read that a transaction makes, which then asks no node; every other
  -- slot holds what it did once the account was read.
  pub set_storage-get_storage :
      (addr_text index_text value_text : String) (a i v b j : ℕ) (t : TinyEvm cx) {t' : TinyEvm cx}
      → parsers.address_from_str (trim_prefix addr_text "0x") ≡ ok a
      → parsers.u256_from_hex (trim_prefix index_text "0x") ≡ ok i
      → parsers.u256_from_hex (trim_prefix value_text "0x") ≡ ok v
      → set_storage cx parsers addr_text index_text value_text t ≡ (ok tt, t')
      → (get_storage cx n parsers addr_text index_text t' ≡ ok (ruint_u256_to_bigint n v))
        × (storage cx a i (world_of cx t') ≡ (ok v, world_of cx t'))
        × ((a == b && i == j) ≡ false
            → held_slot t'.db b j ≡ held_slot (basic cx a (world_of cx t)).1.db b j)
  set_storage-get_storage addr_text index_text value_text a i v b j t {t'} addr index value e =
      let (w, stored, db) =
        run_db-ok cx (insert_account_storage cx a i v) t
          (sym (set_storage_parsed addr_text index_text value_text a i v t addr index value) ∙ e) in
      let held : held_slot t'.db a i ≡ some v =
        ap (λ x. held_slot x a i) db
        ∙ insert_account_storage-held cx a i v (world_of cx t) stored in
      let (_, others) = insert_account_storage_reads cx a i v b j (world_of cx t) stored in
      (
        get_storage_held addr_text index_text a i v t' addr index held,
        storage_held cx a i (world_of cx t') held,
        λ other. ap (λ x. held_slot x b j) db ∙ others other,
      )

module _ (cx : Context) (p : Printers) (parsers : Parsers) where
  code_back :
      (text : String) (a b : ℕ) (code : List ℕ) (t : TinyEvm cx)
      → parsers.address_from_str text ≡ ok a
      → let t' = (set_code_by_address cx a code t).1 in
        (get_code cx p parsers text t' ≡ (ok (p.hex_encode code), t'))
        × ((a == b) ≡ false → Maps.get t'.db.accounts b ≡ Maps.get t.db.accounts b)
  unfolding get_code
  code_back text a b code t parsed =
      let (reads, _, keeps) = set_code_by_address_reads cx a b code t in
      (rw (parsed, reads) refl, keeps)

  -- When `set_code` returns, its text stood for some bytes, and `get_code` of the account returns
  -- the hexadecimal text of those bytes, without asking the node; every other account is kept.
  pub set_code-get_code :
      (text code_text : String) (a b : ℕ) (t : TinyEvm cx) {t' : TinyEvm cx}
      → parsers.address_from_str text ≡ ok a
      → set_code cx p parsers text code_text t ≡ (ok tt, t')
      → (code : List ℕ) × (p.hex_decode code_text ≡ ok code)
        × (get_code cx p parsers text t' ≡ (ok (p.hex_encode code), t'))
        × ((a == b) ≡ false → Maps.get t'.db.accounts b ≡ Maps.get t.db.accounts b)
  unfolding set_code
  set_code-get_code text code_text a b t {t'} parsed e =
      let (addr, is_addr, k1) = continue-eq-ok (parsers.address_from_str text) _ t e in
      let (code, is_code, k2) = continue-eq-ok (p.hex_decode code_text) _ t k1 in
      let is_a : a ≡ addr = ok-injective (sym parsed ∙ is_addr) in
      let (reads, keeps) =
        subst
          (λ u.
            (get_code cx p parsers text u ≡ (ok (p.hex_encode code), u))
            × ((a == b) ≡ false → Maps.get u.db.accounts b ≡ Maps.get t.db.accounts b))
          (ap (λ x. (set_code_by_address cx x code t).1) is_a ∙ ap (λ r. r.1) k2)
          (code_back text a b code t parsed) in
      (code, is_code, reads, keeps)
