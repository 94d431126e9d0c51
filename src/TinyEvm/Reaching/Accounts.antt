-- ===== src/TinyEvm/Reaching/Accounts.antt =====
-- src/lib.rs: what the requests on accounts do to the database.
use mathlib.Core.Path.{subst}
use tevm.ForkDb.{Context, DbAccount, ForkDb, World}
use tevm.ForkDb.Contracts.{MatchesCode}
use tevm.ForkDb.Database
use tevm.ForkDb.Database.{on_db}
use tevm.ForkDb.Steps.{
  Reached, basic, insert_account_info, remove, set_balance, copy, elsewhere, next,
}
use tevm.Prelude.{
  ℕ, ◌≡◌, refl, ap, Bool, List, Option, none, some, arith, inl, inr, Option-cases, Bool-cases,
  some_inj,
}
use tevm.Prelude.Maps
use tevm.Prelude.Outcome.{Outcome, ok, err, panic, Exec, continue, lift}
use tevm.TinyEvm.{TinyEvm, bug_inspector_mut, db_mut, run_db, world_of}
use tevm.TinyEvm.Accounts as Requests
use tevm.TinyEvm.Accounts.{
  info_of_balance, info_with_code, code_of, balance_of, set_balance_of, clone_in, default_balance,
}

module _ (cx : Context) where
  -- to replace the database by one that is equal
  same_db :
      {db db' : ForkDb} (w : World cx)
      → db ≡ db'
      → Reached cx (record w { db = db })
      → Reached cx (record w { db = db' })
  same_db w e = subst (λ db. Reached cx (record w { db = db })) e

  pub set_balance_of-Reached :
      (a balance : ℕ) (w : World cx)
      → Reached cx w
      → Reached cx (on_db cx (set_balance_of cx a balance) w)
  unfolding set_balance_of
  set_balance_of-Reached a balance w reached = elim (Option-cases (Maps.get w.db.accounts a)) [
    | inl none_yet ↦
        same_db w (ground (arith, none_yet))
          (next reached (insert_account_info a (info_of_balance cx balance) w λ b code e. inl refl))
    | inr (account, held) ↦
        same_db w (ground (arith, held)) (next reached (set_balance a balance account w held))
  ]

  pub clone_in-Reached :
      (from to : ℕ) (delete : Bool) (w : World cx)
      → Reached cx w
      → Reached cx (on_db cx (clone_in cx from to delete) w)
  unfolding clone_in
  clone_in-Reached from to delete w reached = elim (Option-cases (Maps.get w.db.accounts from)) [
    | inl none_yet ↦ same_db w (ground (arith, none_yet)) reached
    | inr (account, held) ↦
        let copied = next reached (copy from to account w held) in
        elim (Bool-cases delete) [
          | inl deleted ↦ same_db w (ground (arith, held, deleted)) (next copied (remove from _))
          | inr kept ↦ same_db w (ground (arith, held, kept)) copied
        ]
  ]

  pub info_with_code-MatchesCode :
      (code : List ℕ) (old : Option DbAccount) → MatchesCode cx.ext (info_with_code cx code old)
  unfolding info_with_code
  info_with_code-MatchesCode code none b bytes e = inr (ap cx.ext.keccak256 (some_inj e))
  info_with_code-MatchesCode code (some account) b bytes e = inr (ap cx.ext.keccak256 (some_inj e))

  pub reset_account-Reached :
      (a : ℕ) (t : TinyEvm cx)
      → Reached cx (world_of cx t)
      → Reached cx (world_of cx (Requests.reset_account cx a t).1)
  unfolding Requests.reset_account db_mut
  reset_account-Reached a t reached = elim (Option-cases (Maps.get t.db.accounts a)) [
    | inl none_yet ↦ same_db (world_of cx t) (ground (arith, none_yet)) reached
    | inr (account, held) ↦ same_db (world_of cx t) (ground (arith, held)) (
        next reached (
          insert_account_info a (info_of_balance cx default_balance) (world_of cx t)
            λ b code e. inl refl))
  ]

  pub db-nuke_account :
      (a : ℕ) (t : TinyEvm cx)
      → world_of cx (Requests.nuke_account cx a t).1
        ≡ on_db cx (Requests.forget_account cx a) (world_of cx t)
  unfolding Requests.nuke_account db_mut bug_inspector_mut
  db-nuke_account a t = ground arith

  pub run_db-Reached :
      {A : Type 0} (m : Exec (World cx) A) (t : TinyEvm cx)
      → Reached cx (m (world_of cx t)).1
      → Reached cx (world_of cx (run_db cx m t).1)
  unfolding run_db
  run_db-Reached m t reached =
      let w = (m (world_of cx t)).1 in next reached (elsewhere w.store t.locals.call_depth w)

  -- `get_code_by_address` and `get_eth_balance` read the account, and then only compute.
  pub read-Reached :
      {A B : Type 0} (r : Outcome A) (f : A → Outcome B) (t : TinyEvm cx)
      → Reached cx (world_of cx t)
      → Reached cx (world_of cx (continue r (λ a. lift (f a)) t).1)
  read-Reached (ok a) f t reached = reached
  read-Reached (err e) f t reached = reached
  read-Reached panic f t reached = reached

  pub basic-Reached :
      (a : ℕ) (t : TinyEvm cx)
      → Reached cx (world_of cx t)
      → Reached cx (world_of cx (run_db cx (Database.basic cx a) t).1)
  basic-Reached a t reached =
      run_db-Reached (Database.basic cx a) t (next reached (basic a (world_of cx t)))
