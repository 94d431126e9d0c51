-- ===== src/ForkDb/ForkBlock.antt =====
-- src/fork_db.rs: the fork block, and what the writes of accounts keep of the fork.
use tevm.External.{Externals}
use tevm.ForkDb.{
  AccountInfo, Context, ForkDb, World, create_with_provider, new_db, max_fork_depth_of,
}
use tevm.ForkDb.Accounts.{insert_account_info, insert_contract, insert_code}
use tevm.ForkDb.Database.{
  get_fork_block, get_fork_block_id, get_fork_block_by_number, provider_call, on_db,
}
use tevm.ForkProvider
use tevm.ForkProvider.{Block, Remote}
use tevm.Prelude.{
  ℕ, ◌≡◌, refl, sym, ap, ◌∙◌, Bool, true, false, List, [], ◌∷◌, Option, none, some, arith,
  Option-cases, Bool-cases, inl, inr, HashMap,
}
use tevm.Prelude.Maps
use tevm.Prelude.Maps.{get-insert}
use tevm.Prelude.Outcome.{
  ok≢err, Outcome, ok, err, panic, Exec, pure, lift, modify, unwrap, and_then-eq-ok, context,
  block_missing, no_provider, continue-eq-ok, ok-injective, ◌>>=◌, ◌>>◌,
}

-- the fields of the fork
abbrev pub fork_part : ForkDb → Bool × Option ℕ × HashMap Block
fork_part db = (db.fork_enabled, db.block_id, db.block_cache)

module _ (ext : Externals) where
  fork_part-insert_code :
      (code : Option (List ℕ)) (info : AccountInfo) (db : ForkDb)
      → fork_part (insert_code ext code info db).1 ≡ fork_part db
  unfolding insert_code
  fork_part-insert_code none info db = refl
  fork_part-insert_code (some []) info db = refl
  fork_part-insert_code (some (b ∷ code)) info db = ground arith

  pub fork_part-insert_account_info :
      (a : ℕ) (info : AccountInfo) (db : ForkDb)
      → fork_part (insert_account_info ext a info db) ≡ fork_part db
  unfolding insert_account_info insert_contract
  fork_part-insert_account_info a info db = fork_part-insert_code info.code info db

pub unwrap-ok : {A : Type 0} (r : Outcome A) {a : A} → unwrap r ≡ ok a → r ≡ ok a
unwrap-ok (ok a) e = e
unwrap-ok (err x) e = cc
unwrap-ok panic e = cc

-- the block that was asked for, or the latest one of the node
abbrev pub AskedBlock : Remote → Option ℕ → ℕ → Type 0
AskedBlock remote (some asked) id = asked ≡ id
AskedBlock remote none id = remote.get_block_number ≡ ok id

-- A database on a fork has the block that was asked for, or the latest one.
pub create_with_provider-fork :
    (remote : Remote) (block_id : Option ℕ) (depth : Option (Option ℕ)) {db : ForkDb}
    → create_with_provider remote true block_id depth ≡ ok db
    → (id : ℕ) × AskedBlock remote block_id id
      × (new_db true (some id) (max_fork_depth_of depth) ≡ db)
unfolding create_with_provider
create_with_provider-fork remote none depth e =
    let (number, latest, made) = and_then-eq-ok (unwrap remote.get_block_number) _ e in
    (number, unwrap-ok remote.get_block_number latest, ok-injective made)
create_with_provider-fork remote (some id) depth e = (id, refl, ok-injective e)

module _ (cx : Context) where
  get_fork_block_id_known :
      (id : ℕ) (w : World cx) → w.db.block_id ≡ some id → get_fork_block_id cx w ≡ (ok id, w)
  unfolding get_fork_block_id
  get_fork_block_id_known id w h = ground (arith, h)

  -- what a read of a block by its number leaves
  abbrev Cached : ℕ → Block → World cx → World cx → Type 0
  Cached number block w w' =
      (Maps.get w'.db.block_cache number ≡ some block)
      × (w'.db.block_id ≡ w.db.block_id)
      × (w'.db.fork_enabled ≡ w.db.fork_enabled)

  -- the load of a block that is not in the cache of blocks
  abbrev pub load_block : ℕ → Exec (World cx) Block
  load_block number = do
    found ← provider_call cx (ForkProvider.get_block cx.cache cx.codec cx.remote number)
    block ← lift (context found block_missing)
    modify (on_db cx (λ db. record db { block_cache = Maps.insert number block db.block_cache }))
    pure block

  by_number_known :
      (number : ℕ) (w : World cx) {known : Block}
      → Maps.get w.db.block_cache number ≡ some known
      → get_fork_block_by_number cx number w ≡ (ok known, w)
  unfolding get_fork_block_by_number
  by_number_known number w h = ground (arith, h)

  by_number_loading :
      (number : ℕ) (w : World cx)
      → Maps.get w.db.block_cache number ≡ none
      → w.db.has_provider ≡ true
      → get_fork_block_by_number cx number w ≡ load_block number w
  unfolding get_fork_block_by_number
  by_number_loading number w fresh here = ground (arith, fresh, here)

  by_number_refused :
      (number : ℕ) (w : World cx)
      → Maps.get w.db.block_cache number ≡ none
      → w.db.has_provider ≡ false
      → get_fork_block_by_number cx number w ≡ (err no_provider, w)
  unfolding get_fork_block_by_number
  by_number_refused number w fresh nobody = ground (arith, fresh, nobody)

  load_block-Cached :
      (number : ℕ) (w : World cx) {block : Block} {w' : World cx}
      → load_block number w ≡ (ok block, w')
      → Cached number block w w'
  unfolding provider_call
  load_block-Cached number w {block} {w'} e =
      let (found, s) = ForkProvider.get_block cx.cache cx.codec cx.remote number w.store in
      let w1 : World cx = record w { store = s } in
      let (found', _, e1) = continue-eq-ok found _ w1 e in
      let (loaded, _, e2) = continue-eq-ok (context found' block_missing) _ w1 e1 in
      let same : loaded ≡ block = ok-injective (ap (λ x. x.0) e2) in
      let kept = ap (λ x. x.1.db) e2 in
      (
        ap (λ db. Maps.get db.block_cache number) (sym kept)
            ∙ ground (arith, get-insert number number loaded w.db.block_cache)
            ∙ ap (λ x. some x) same,
        ap (λ db. db.block_id) (sym kept),
        ap (λ db. db.fork_enabled) (sym kept),
      )

  known_block-Cached :
      (number : ℕ) (known : Block) (w : World cx) {block : Block} {w' : World cx}
      → Maps.get w.db.block_cache number ≡ some known
      → ◌≡◌ {A = Outcome Block × World cx} (ok known, w) (ok block, w')
      → Cached number block w w'
  known_block-Cached number known w {block} {w'} held e =
      let kept = ap (λ x. x.1.db) e in
      (
        ap (λ db. Maps.get db.block_cache number) (sym kept)
            ∙ held
            ∙ ap (λ x. some x) (ok-injective (ap (λ x. x.0) e)),
        ap (λ db. db.block_id) (sym kept),
        ap (λ db. db.fork_enabled) (sym kept),
      )

  by_number-Cached :
      (number : ℕ) (w : World cx) {block : Block} {w' : World cx}
      → get_fork_block_by_number cx number w ≡ (ok block, w')
      → Cached number block w w'
  by_number-Cached number w {block} {w'} e =
      elim (Option-cases (Maps.get w.db.block_cache number)) [
        | inr (known, held) ↦
            known_block-Cached number known w held (sym (by_number_known number w held) ∙ e)
        | inl fresh ↦ elim (Bool-cases w.db.has_provider) [
          | inl here ↦ load_block-Cached number w (sym (by_number_loading number w fresh here) ∙ e)
          | inr nobody ↦
              absurd (ok≢err (ap (λ x. x.0) (sym e ∙ by_number_refused number w fresh nobody)))
        ]
      ]

  -- A block that was found is in the cache of blocks, and nothing else of the fork has changed.
  pub get_fork_block-Cached :
      (id : ℕ) (w : World cx) {block : Block} {w' : World cx}
      → w.db.block_id ≡ some id
      → get_fork_block cx w ≡ (ok block, w')
      → Cached id block w w'
  unfolding get_fork_block
  get_fork_block-Cached id w {block} {w'} is_id e =
      by_number-Cached id w (sym (rw (get_fork_block_id_known id w is_id) refl) ∙ e)
