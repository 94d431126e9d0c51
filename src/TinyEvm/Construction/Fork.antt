-- ===== src/TinyEvm/Construction/Fork.antt =====
-- A new instance of src/lib.rs on a fork.
use mathlib.Core.Path.{subst}
use tevm.ForkDb.{AccountInfo, Context, ForkDb, World, new_db, max_fork_depth_of}
use tevm.ForkDb.Database.{get_fork_block}
use tevm.ForkDb.ForkBlock.{
  fork_part-insert_account_info, create_with_provider-fork, get_fork_block-Cached, unwrap-ok,
  AskedBlock,
}
use tevm.ForkProvider.{Block}
use tevm.Instrument.LogInspector.{Locals}
use tevm.Prelude.{ℕ, ◌≡◌, refl, sym, ap, ◌∙◌, Bool, true, Option, none, some, String, arith}
use tevm.Prelude.Maps
use tevm.Prelude.Outcome.{
  Outcome, Outcome-cases, returned, failed, panicked, ok, err, panic, unwrap, and_then,
  and_then-eq-ok, ok-injective, ok≢err, ok≢panic,
}
use tevm.TinyEvm.{BlockEnv, TinyEvm}
use tevm.TinyEvm.AccountLaws.{get_eth_balance-insert_account_info}
use tevm.TinyEvm.Accounts.{default_balance, get_eth_balance, is_fork_enabled, info_of_balance}
use tevm.TinyEvm.Construction.{
  Setup, new_instance, new_fork_db, fork_env, block_env_of, expect_number, instance_of,
}

module _ (cx : Context) (setup : Setup) where
  -- An environment that agrees with a block: the two fields that a block may lack are those of the
  -- default environment then.
  abbrev pub EnvOf : Block → BlockEnv → Type 0
  EnvOf block env =
      (block.number ≡ some env.number)
      × (env.timestamp ≡ block.timestamp)
      × (env.difficulty ≡ block.difficulty)
      × (env.gas_limit ≡ block.gas_limit)
      × ((fee : ℕ) → block.base_fee_per_gas ≡ some fee → env.basefee ≡ fee)
      × (block.base_fee_per_gas ≡ none → env.basefee ≡ setup.default_block.basefee)
      × ((author : ℕ) → block.author ≡ some author → env.coinbase ≡ author)
      × (block.author ≡ none → env.coinbase ≡ setup.default_block.coinbase)

  block_env_of-EnvOf :
      (number : ℕ) (block : Block)
      → block.number ≡ some number
      → EnvOf block (block_env_of cx setup number block)
  unfolding block_env_of
  block_env_of-EnvOf number block numbered = (
    numbered,
    refl,
    refl,
    refl,
    λ fee e. ground (arith, e),
    λ e. ground (arith, e),
    λ author e. ground (arith, e),
    λ e. ground (arith, e),
  )

  expect_number-ok : (n : Option ℕ) {k : ℕ} → expect_number cx setup n ≡ ok k → n ≡ some k
  unfolding expect_number
  expect_number-ok none e = cc
  expect_number-ok (some k) e = cc

  new_fork_db-fork :
      (url : String) (block_id : Option ℕ) {db : ForkDb}
      → new_fork_db cx setup (some url) block_id ≡ ok db
      → (id : ℕ) × AskedBlock cx.remote block_id id
        × (new_db true (some id) (max_fork_depth_of setup.max_fork_depth) ≡ db)
  unfolding new_fork_db
  new_fork_db-fork url block_id e =
      let (_, _, e1) = and_then-eq-ok (unwrap setup.runtime_new) _ e in
      let (_, _, e2) = and_then-eq-ok (setup.provider_try_from url) _ e1 in
      create_with_provider-fork cx.remote block_id setup.max_fork_depth e2

  fork_env-fork :
      (id : ℕ) (w : World cx) {env : BlockEnv} {w' : World cx}
      → w.db.block_id ≡ some id
      → fork_env cx setup true w ≡ (ok env, w')
      → (block : Block) × (Maps.get w'.db.block_cache id ≡ some block)
        × (w'.db.block_id ≡ some id)
        × (w'.db.fork_enabled ≡ w.db.fork_enabled)
        × EnvOf block env
  unfolding fork_env
  fork_env-fork id w {env} {w'} is_id e =
      let (found, w1) = get_fork_block cx w in
      let (block, unwrapped, e1) = and_then-eq-ok (unwrap found) _ (ap (λ x. x.0) e) in
      let (number, numbered, e2) = and_then-eq-ok (expect_number cx setup block.number) _ e1 in
      let read : get_fork_block cx w ≡ (ok block, w1) = λ i. (unwrap-ok found unwrapped i, w1) in
      let (cached, kept_id, kept_mode) = get_fork_block-Cached cx id w is_id read in
      let moved : w1 ≡ w' = ap (λ x. x.1) e in
      (
        block,
        ap (λ u. Maps.get u.db.block_cache id) (sym moved) ∙ cached,
        ap (λ u. u.db.block_id) (sym moved) ∙ kept_id ∙ is_id,
        ap (λ u. u.db.fork_enabled) (sym moved) ∙ kept_mode,
        subst (EnvOf block) (ok-injective e2)
            (block_env_of-EnvOf number block (expect_number-ok block.number numbered)),
      )

  -- What an instance on a fork holds, from the block that was asked for.
  abbrev pub OnFork : Option ℕ → TinyEvm cx → Type 0
  OnFork block_id t =
      (id : ℕ) × (block : Block) × AskedBlock cx.remote block_id id
      × (t.db.block_id ≡ some id)
      × (Maps.get t.db.block_cache id ≡ some block)
      × (is_fork_enabled cx t ≡ true)
      × (get_eth_balance cx 0 t ≡ (ok default_balance, t))
      × EnvOf block t.block

  instance_of-OnFork :
      (block_id : Option ℕ) (id : ℕ) (trace : Bool) (locals : Locals) (w w' : World cx)
      (env : BlockEnv)
      → AskedBlock cx.remote block_id id
      → w.db.block_id ≡ some id
      → w.db.fork_enabled ≡ true
      → fork_env cx setup true w ≡ (ok env, w')
      → OnFork block_id (instance_of cx setup trace env locals w')
  unfolding instance_of is_fork_enabled
  instance_of-OnFork block_id id trace locals w w' env asked is_id mode e =
      let (block, cached, kept_id, kept_mode, from) = fork_env-fork id w is_id e in
      let info : AccountInfo = info_of_balance cx default_balance in
      let kept = fork_part-insert_account_info cx.ext 0 info w'.db in
      let t : TinyEvm cx = instance_of cx setup trace env locals w' in
      (
        id,
        block,
        asked,
        ap (λ x. x.1) kept ∙ kept_id,
        ap (λ x. Maps.get x.2 id) kept ∙ cached,
        ap (λ x. x.0) kept ∙ kept_mode ∙ mode,
        get_eth_balance-insert_account_info cx 0 info t w'.db refl,
        from,
      )

  new_instance-OnFork :
      (block_id : Option ℕ) (trace : Bool) (locals : Locals) (store : cx.cache.Store) (db : ForkDb)
      (id : ℕ) {t : TinyEvm cx}
      → AskedBlock cx.remote block_id id
      → db.block_id ≡ some id
      → db.fork_enabled ≡ true
      → let w : World cx = record { db = db; store = store; call_depth = locals.call_depth } in
        let (env, w') = fork_env cx setup true w in
        and_then env (λ b. ok (instance_of cx setup trace b locals w')) ≡ ok t → OnFork block_id t
  new_instance-OnFork block_id trace locals store db id asked is_id mode e =
      let w : World cx = record { db = db; store = store; call_depth = locals.call_depth } in
      let (env, w') = fork_env cx setup true w in
      let (b, is_b, e1) = and_then-eq-ok env _ e in
      subst (OnFork block_id) (ok-injective e1)
        (instance_of-OnFork block_id id trace locals w w' b asked is_id mode (λ i. (is_b i, w')))

  -- what `new_instance` does with the database
  abbrev after_db :
      Bool → Locals → cx.cache.Store → Outcome ForkDb → Outcome (TinyEvm cx) × cx.cache.Store
  after_db trace locals store made = elim made [
    | ok db ↦
        let w : World cx = record { db = db; store = store; call_depth = locals.call_depth } in
        let (block, w') = fork_env cx setup true w in
        (and_then block (λ b. ok (instance_of cx setup trace b locals w')), w'.store)
    | err e ↦ (err e, store)
    | panic ↦ (panic, store)
  ]

  -- When `new_instance` returns on a fork, the database stands at the block that was asked for, or
  -- at the number that the node gives as the latest one, and holds a block for it; the number, the
  -- timestamp, the difficulty and the gas limit of the environment are those of that block, and its
  -- base fee and coinbase are too, or the default ones where the block has none. The fork is
  -- enabled, and the owner has the default balance, which is read without asking the node.
  pub new_instance_forked :
      (url : String) (block_id : Option ℕ) (trace : Bool) (locals : Locals) (store : cx.cache.Store)
      {t : TinyEvm cx} {store' : cx.cache.Store}
      → new_instance cx setup (some url) block_id trace locals store ≡ (ok t, store')
      → OnFork block_id t
  unfolding new_instance
  new_instance_forked url block_id trace locals store {t} e =
      elim (Outcome-cases (new_fork_db cx setup (some url) block_id)) [
        | returned db made ↦
            let (id, asked, fresh) = new_fork_db-fork url block_id made in
            new_instance-OnFork block_id trace locals store db id asked
              (ap (λ d. d.block_id) (sym fresh)) (ap (λ d. d.fork_enabled) (sym fresh))
              (ap (λ x. x.0) (sym (ap (after_db trace locals store) made) ∙ e))
        | failed x fails ↦
            absurd (ok≢err (ap (λ x. x.0) (sym e ∙ ap (after_db trace locals store) fails)))
        | panicked fails ↦
            absurd (ok≢panic (ap (λ x. x.0) (sym e ∙ ap (after_db trace locals store) fails)))
      ]
