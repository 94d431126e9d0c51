-- ===== src/ForkProvider.antt =====
-- src/fork_provider.rs: reads from the remote chain, through the cache.
pub mod Coherence
pub mod MissingBlock
use tevm.Cache.{ProviderCache, Request}
use tevm.Prelude.{ℕ, List, Option, none, some, String}
use tevm.Prelude.Outcome.{Outcome, ok, err, panic, Exec, unwrap, and_then}

-- the fields of the `Block<TxHash>` of ethers that the program reads
pub record Block : Type 0 where
  pub hash : Option ℕ
  pub number : Option ℕ
  pub timestamp : ℕ
  pub difficulty : ℕ
  pub gas_limit : ℕ
  pub base_fee_per_gas : Option ℕ
  pub author : Option ℕ

-- The node behind `Provider<Http>`. It answers the same request in the same way, which holds of a
-- node that is reachable and of requests that name a block.
pub record Remote : Type 0 where
  pub get_block_number : Outcome ℕ
  pub get_transaction_count : ℕ → Option ℕ → Outcome ℕ
  pub get_balance : ℕ → Option ℕ → Outcome ℕ
  pub get_code : ℕ → Option ℕ → Outcome (List ℕ)
  pub get_block : ℕ → Outcome (Option Block)
  pub get_storage_at : ℕ → ℕ → Option ℕ → Outcome ℕ

-- The printers and parsers of the libraries for what the cache holds.
pub record Codec : Type 0 where
  -- `format!("{:x}", address)`, `format!("{:x}-{:x}", address, index)`, `format!("{:x}", number)`
  pub hex_address : ℕ → String
  pub hex_slot : ℕ → ℕ → String
  pub hex_number : ℕ → String
  -- `format!("{:x}", nonce)` and `U256::from_str_radix(cached, 16)`
  pub print_u256 : ℕ → String
  pub parse_u256 : String → Outcome ℕ
  -- `format!("{:x}", code)` and `Bytes::from_hex`
  pub print_bytes : List ℕ → String
  pub parse_bytes : String → Outcome (List ℕ)
  -- `format!("{:x}", storage)`, and `hex::decode` with `H256::from_slice`
  pub print_h256 : ℕ → String
  pub parse_h256 : String → Outcome ℕ
  -- `serde_json::to_string` of an optional block and `serde_json::from_str` of a block
  pub print_block : Option Block → Outcome String
  pub parse_block : String → Outcome Block

abbrev pub request : ℕ → String → String → Request
request block_number api key = record {
  chain = "eth";
  block = block_number;
  api = api;
  request_hash = key;
}

-- One of the four reads that have the same shape in the source: the name of the call and the key of
-- its cache entry, how an entry is parsed and printed, and the call.
pub record Reader (A : Type 0) : Type 0 where
  pub api : String
  pub key : String
  pub decode : String → Outcome A
  pub encode : A → String
  pub fetch : Option ℕ → Outcome A

module _ (cache : ProviderCache) where
  -- `if let Some(block_number) = .. { self.cache.store(..)?; }` and `Ok(value)`
  unfoldable pub store_value : {A : Type 0} → Reader A → Option ℕ → A → Exec cache.Store A
  store_value rd none a s = (ok a, s)
  store_value rd (some n) a s =
      let (stored, s') = cache.store (request n rd.api rd.key) (rd.encode a) s in
      (and_then stored (λ _. ok a), s')

  -- the call to the node, `?`, and the store
  unfoldable pub fetch_and_store : {A : Type 0} → Reader A → Option ℕ → Exec cache.Store A
  unfolding store_value
  fetch_and_store rd block_number s = elim (rd.fetch block_number) [
    | ok a ↦ store_value rd block_number a s
    | err e ↦ (err e, s)
    | panic ↦ (panic, s)
  ]

  -- the whole read: a cached entry is parsed and unwrapped
  unfoldable pub cached_read : {A : Type 0} → Reader A → Option ℕ → Exec cache.Store A
  unfolding fetch_and_store
  cached_read rd none s = fetch_and_store rd none s
  cached_read rd (some n) s = elim (cache.get (request n rd.api rd.key) s) [
    | ok cached ↦ (unwrap (rd.decode cached), s)
    | err _ ↦ fetch_and_store rd (some n) s
    | panic ↦ (panic, s)
  ]

module _ (codec : Codec) (remote : Remote) where
  abbrev pub nonce_reader : ℕ → Reader ℕ
  nonce_reader address = record {
    api = "eth_getTransactionCount";
    key = codec.hex_address address;
    decode = codec.parse_u256;
    encode = codec.print_u256;
    fetch = remote.get_transaction_count address;
  }

  abbrev pub balance_reader : ℕ → Reader ℕ
  balance_reader address = record {
    api = "eth_getBalance";
    key = codec.hex_address address;
    decode = codec.parse_u256;
    encode = codec.print_u256;
    fetch = remote.get_balance address;
  }

  abbrev pub code_reader : ℕ → Reader (List ℕ)
  code_reader address = record {
    api = "eth_getCode";
    key = codec.hex_address address;
    decode = codec.parse_bytes;
    encode = codec.print_bytes;
    fetch = remote.get_code address;
  }

  abbrev pub storage_reader : ℕ → ℕ → Reader ℕ
  storage_reader address index = record {
    api = "eth_getStorageAt";
    key = codec.hex_slot address index;
    decode = codec.parse_h256;
    encode = codec.print_h256;
    fetch = remote.get_storage_at address index;
  }

module _ (cache : ProviderCache) (codec : Codec) (remote : Remote) where
  unfoldable pub get_block_number : Exec cache.Store ℕ
  get_block_number s = (remote.get_block_number, s)

  unfoldable pub get_transaction_count : ℕ → Option ℕ → Exec cache.Store ℕ
  unfolding cached_read
  get_transaction_count address = cached_read cache (nonce_reader codec remote address)

  unfoldable pub get_balance : ℕ → Option ℕ → Exec cache.Store ℕ
  unfolding cached_read
  get_balance address = cached_read cache (balance_reader codec remote address)

  unfoldable pub get_code : ℕ → Option ℕ → Exec cache.Store (List ℕ)
  unfolding cached_read
  get_code address = cached_read cache (code_reader codec remote address)

  unfoldable pub get_storage_at : ℕ → ℕ → Option ℕ → Exec cache.Store ℕ
  unfolding cached_read
  get_storage_at address index = cached_read cache (storage_reader codec remote address index)

  -- `let _ = self.cache.store(.., &serde_json::to_string(&block)?)`
  unfoldable pub store_block : ℕ → Option Block → Exec cache.Store (Option Block)
  store_block block_number block s = elim (codec.print_block block) [
    | ok text ↦ (
      ok block,
      (cache.store (request block_number "eth_getBlockByNumber" (codec.hex_number block_number))
          text s).1,
    )
    | err e ↦ (err e, s)
    | panic ↦ (panic, s)
  ]

  unfoldable pub fetch_block : ℕ → Exec cache.Store (Option Block)
  unfolding store_block
  fetch_block block_number s = elim (remote.get_block block_number) [
    | ok block ↦ store_block block_number block s
    | err e ↦ (err e, s)
    | panic ↦ (panic, s)
  ]

  unfoldable pub get_block : ℕ → Exec cache.Store (Option Block)
  unfolding fetch_block
  get_block block_number s =
      elim (cache.get (request block_number "eth_getBlockByNumber" (codec.hex_number block_number))
        s) [
          | ok cached ↦ (unwrap (and_then (codec.parse_block cached) (λ b. ok (some b))), s)
          | err _ ↦ fetch_block block_number s
          | panic ↦ (panic, s)
        ]
