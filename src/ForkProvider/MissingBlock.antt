-- ===== src/ForkProvider/MissingBlock.antt =====
-- A block that does not exist, in `get_block` of src/fork_provider.rs.
use tevm.Cache.{ProviderCache, Request, IsCache}
use tevm.ForkProvider.{Codec, Remote, request, store_block, fetch_block, get_block}
use tevm.Prelude.{ℕ, ◌≡◌, none, String, arith}
use tevm.Prelude.Outcome.{Error, ok, err, panic}

module _ (cache : ProviderCache) (Named : Request → Type 0) (law : IsCache cache Named)
    (codec : Codec) (remote : Remote) where
  -- The first read of a missing block that is not cached returns no block, and caches the text
  -- for that, if it can be stored. If that text is no block to the parser, the second read
  -- unwraps the failure: it panics.
  pub get_block_twice :
      (n : ℕ) (s : cache.Store) {x y : Error} (text : String)
      → remote.get_block n ≡ ok none
      → codec.print_block none ≡ ok text
      → codec.parse_block text ≡ err x
      → cache.get (request n "eth_getBlockByNumber" (codec.hex_number n)) s ≡ err y
      → (cache.store (request n "eth_getBlockByNumber" (codec.hex_number n)) text s).0 ≡ ok tt
      → let (first, s') = get_block cache codec remote n s in
        (first ≡ ok none) × ((get_block cache codec remote n s').0 ≡ panic)
  unfolding get_block fetch_block store_block
  get_block_twice n s text missing prints fails fresh stores = ground (
    arith,
    missing,
    prints,
    fails,
    fresh,
    law.get-store (request n "eth_getBlockByNumber" (codec.hex_number n)) text s stores,
  )
