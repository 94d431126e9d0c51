-- ===== src/TinyEvm/Construction/Offline.antt =====
-- A new instance of src/lib.rs without a fork.
use tevm.ForkDb.{
  AccountInfo, Context, DbAccount, ForkDb, create, create_with_provider, max_fork_depth_of, new_db,
}
use tevm.ForkDb.Laws.{fork_enabled-insert_account_info}
use tevm.Instrument.LogInspector.{Locals}
use tevm.Prelude.{ℕ, ◌≡◌, refl, Bool, false, Option, none, arith, ◌==◌}
use tevm.Prelude.Maps
use tevm.Prelude.Maps.{get-nil}
use tevm.Prelude.Outcome.{ok}
use tevm.TinyEvm.{TinyEvm}
use tevm.TinyEvm.AccountLaws.{get_eth_balance-insert_account_info, account-insert_account_info}
use tevm.TinyEvm.Accounts.{default_balance, get_eth_balance, is_fork_enabled, info_of_balance}
use tevm.TinyEvm.Construction.{Setup, new_instance, new_fork_db, fork_env, instance_of}

module _ (cx : Context) (setup : Setup) where
  -- Without a fork `new_instance` always makes an instance and leaves the cache alone. Reads of the
  -- instance ask no node: the owner, the address 0, has the default balance, and no other address
  -- has an account.
  pub new_instance_offline :
      (block_id : Option ℕ) (trace : Bool) (locals : Locals) (store : cx.cache.Store) (a : ℕ)
      → (t : TinyEvm cx) × (new_instance cx setup none block_id trace locals store ≡ (ok t, store))
        × (is_fork_enabled cx t ≡ false)
        × (get_eth_balance cx 0 t ≡ (ok default_balance, t))
        × ((0 == a) ≡ false → Maps.get t.db.accounts a ≡ none)
  unfolding new_instance new_fork_db create create_with_provider fork_env instance_of
      is_fork_enabled
  new_instance_offline block_id trace locals store a =
      let db : ForkDb = new_db false none (max_fork_depth_of setup.max_fork_depth) in
      let t : TinyEvm cx =
        instance_of cx setup trace setup.default_block locals
          (record { db = db; store = store; call_depth = locals.call_depth }) in
      let info : AccountInfo = info_of_balance cx default_balance in
      (
        t,
        refl,
        fork_enabled-insert_account_info cx.ext 0 info db,
        get_eth_balance-insert_account_info cx 0 info t db refl,
        λ other.
            ground
              (arith, other, account-insert_account_info cx 0 a info db, get-nil {V = DbAccount} a),
      )
