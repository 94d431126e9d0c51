-- ===== src/ForkDb/Steps/Blocks.antt =====
-- src/fork_db.rs: the code of accounts in the operations on blocks.
use tevm.ForkDb.{Context, World}
use tevm.ForkDb.ForkBlock.{load_block}
use tevm.ForkDb.Database.{
  block_hash, get_fork_block, get_fork_block_id, get_fork_block_by_number, on_db, provider_call,
  unwrap_hash,
}
use tevm.Prelude.{ℕ, if_both, ltb, not, if◌then◌else◌}
use tevm.ForkProvider
use tevm.ForkProvider.{Block}
use tevm.Prelude.Maps
use tevm.Words.{u64_max}
use tevm.Prelude.Outcome.{
  Outcome, ok, err, Exec, pure, lift, modify, context, no_provider, no_block_id, block_missing,
  ◌>>=◌, ◌>>◌,
}
use tevm.ForkDb.Steps.Keeps.{
  HeldCode, HeldAfter, on_db-HeldCode, continue-HeldCode, >>=-HeldCode, provider_call-HeldCode,
  option_both,
}

module _ (cx : Context) where
  -- the load of a block by its number
  load_block-HeldCode :
      (number : ℕ) (w : World cx) → HeldCode cx w → HeldAfter cx (load_block cx number w)
  load_block-HeldCode number w holds =
      let read = provider_call cx (ForkProvider.get_block cx.cache cx.codec cx.remote number) in
      >>=-HeldCode cx read _ w (provider_call-HeldCode cx _ w holds) λ found w1 h1.
        continue-HeldCode cx (context found block_missing) _ w1 h1 λ block h.
          on_db-HeldCode cx
            (λ db. record db { block_cache = Maps.insert number block db.block_cache }) w1 (λ k. k)
            h

  get_fork_block_by_number-HeldCode :
      (number : ℕ) (w : World cx)
      → HeldCode cx w
      → HeldAfter cx (get_fork_block_by_number cx number w)
  unfolding get_fork_block_by_number
  get_fork_block_by_number-HeldCode number w holds =
      let asked : Outcome Block × World cx =
        if w.db.has_provider then load_block cx number w else (err no_provider, w) in
      option_both {B = Outcome Block × World cx} (HeldAfter cx) (Maps.get w.db.block_cache number)
        {x = λ block. (ok block, w)} {y = asked} (λ block. holds)
        (if_both {A = Outcome Block × World cx} (HeldAfter cx) w.db.has_provider
          {x = load_block cx number w} {y = (err no_provider, w)}
          (load_block-HeldCode number w holds) holds)

  get_fork_block_id-HeldCode :
      (w : World cx) → HeldCode cx w → HeldAfter cx (get_fork_block_id cx w)
  unfolding get_fork_block_id
  get_fork_block_id-HeldCode w holds =
      let latest = provider_call cx (ForkProvider.get_block_number cx.cache cx.codec cx.remote) in
      let asked : Outcome ℕ × World cx =
        if w.db.has_provider then latest w else (err no_block_id, w) in
      option_both {B = Outcome ℕ × World cx} (HeldAfter cx) w.db.block_id
        {x = λ block_id. (ok block_id, w)} {y = asked} (λ block_id. holds)
        (if_both {A = Outcome ℕ × World cx} (HeldAfter cx) w.db.has_provider {x = latest w}
          {y = (err no_block_id, w)} (provider_call-HeldCode cx _ w holds) holds)

  pub get_fork_block-HeldCode : (w : World cx) → HeldCode cx w → HeldAfter cx (get_fork_block cx w)
  unfolding get_fork_block
  get_fork_block-HeldCode w holds =
      >>=-HeldCode cx (get_fork_block_id cx) _ w (get_fork_block_id-HeldCode w holds)
        get_fork_block_by_number-HeldCode

  -- the load of a block hash
  abbrev load_hash : ℕ → Exec (World cx) ℕ
  load_hash number = do
    block ← get_fork_block_by_number cx number
    hash ← lift (unwrap_hash block)
    modify (on_db cx (λ db. record db { block_hashes = Maps.insert number hash db.block_hashes }))
    pure hash

  load_hash-HeldCode :
      (number : ℕ) (w : World cx) → HeldCode cx w → HeldAfter cx (load_hash number w)
  load_hash-HeldCode number w holds =
      >>=-HeldCode cx (get_fork_block_by_number cx number) _ w
        (get_fork_block_by_number-HeldCode number w holds)
        λ block w1 h1. continue-HeldCode cx (unwrap_hash block) _ w1 h1 λ hash h.
          on_db-HeldCode cx
            (λ db. record db { block_hashes = Maps.insert number hash db.block_hashes }) w1 (λ k. k)
            h

  pub block_hash-HeldCode :
      (number : ℕ) (w : World cx) → HeldCode cx w → HeldAfter cx (block_hash cx number w)
  unfolding block_hash
  block_hash-HeldCode number w holds =
      let made : Outcome ℕ × World cx = (ok (cx.ext.keccak256 (cx.ext.word_bytes number)), w) in
      let asked : Outcome ℕ × World cx =
        if ltb u64_max number then (ok cx.ext.keccak_empty, w) else load_hash number w in
      let unknown : Outcome ℕ × World cx = if not w.db.fork_enabled then made else asked in
      option_both {B = Outcome ℕ × World cx} (HeldAfter cx) (Maps.get w.db.block_hashes number)
        {x = λ hash. (ok hash, w)} {y = unknown} (λ hash. holds)
        (if_both {A = Outcome ℕ × World cx} (HeldAfter cx) (not w.db.fork_enabled) {x = made}
          {y = asked} holds
          (if_both {A = Outcome ℕ × World cx} (HeldAfter cx) (ltb u64_max number)
            {x = (ok cx.ext.keccak_empty, w)} {y = load_hash number w} holds
            (load_hash-HeldCode number w holds)))
