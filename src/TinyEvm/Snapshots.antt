-- ===== src/TinyEvm/Snapshots.antt =====
-- src/lib.rs: snapshots of an account and of the whole database. The methods are given their
-- addresses and ids as text; `Parsers` stands for the parsers of those, and an id is an argument,
-- since `Uuid::new_v4` draws it at random.
use tevm.External.Parsers.{Parsers}
use tevm.ForkDb.{Context}
use tevm.ForkDb.Accounts.{set_account}
use tevm.Prelude.{ℕ, Bool, String, if◌then◌else◌}
use tevm.Prelude.Maps
use tevm.Prelude.Outcome.{
  Exec, pure, lift, gets, modify, ◌>>=◌, ◌>>◌, context, no_snapshot, account_not_found,
}
use tevm.TinyEvm.{TinyEvm, db_mut}
use tevm.TinyEvm.Accounts.{forget_account}

module _ (cx : Context) (parsers : Parsers) where
  unfoldable pub remove_account : String → Exec (TinyEvm cx) (Unit {0})
  remove_account address = do
    addr ← lift (parsers.address_from_str address)
    db_mut cx (forget_account cx addr)

  unfoldable pub take_snapshot : String → Exec (TinyEvm cx) (Unit {0})
  take_snapshot address = do
    addr ← lift (parsers.address_from_str address)
    db ← gets (λ t. t.db)
    account ← lift (context (Maps.get db.accounts addr) account_not_found)
    modify (λ t. record t { snapshots = Maps.insert addr account t.snapshots })

  unfoldable pub copy_snapshot : String → String → Exec (TinyEvm cx) (Unit {0})
  copy_snapshot from_text to_text = do
    from ← lift (parsers.address_from_str from_text)
    to ← lift (parsers.address_from_str to_text)
    snapshots ← gets (λ t. t.snapshots)
    account ← lift (context (Maps.get snapshots from) no_snapshot)
    db_mut cx (set_account cx.ext to account)

  unfoldable pub restore_snapshot : String → Exec (TinyEvm cx) (Unit {0})
  restore_snapshot address = do
    addr ← lift (parsers.address_from_str address)
    snapshots ← gets (λ t. t.snapshots)
    account ← lift (context (Maps.get snapshots addr) no_snapshot)
    db_mut cx (set_account cx.ext addr account)

  unfoldable pub take_global_snapshot : ℕ → Exec (TinyEvm cx) String
  take_global_snapshot id = do
    modify (λ t. record t { global_snapshot = Maps.insert id t.db t.global_snapshot })
    pure (parsers.uuid_to_string id)

  unfoldable pub restore_global_snapshot : String → Bool → Exec (TinyEvm cx) (Unit {0})
  restore_global_snapshot snapshot_id keep_snapshot = do
    id ← lift (parsers.uuid_parse_str snapshot_id)
    snapshots ← gets (λ t. t.global_snapshot)
    snapshot ← lift (context (Maps.get snapshots id) no_snapshot)
    (if keep_snapshot
        then pure tt
        else modify (λ t. record t { global_snapshot = Maps.remove id t.global_snapshot }))
    db_mut cx (λ _. snapshot)
