-- ===== src/Cache/Redis.antt =====
-- src/cache/redis_cache.rs: one key of a redis server for each request. The client is a parameter.

use tevm.Cache.{Request, ProviderCache}
use tevm.Prelude.{ℕ, Option, none, some, String}
use tevm.Prelude.Outcome.{Outcome, panic, Exec, lift, unwrap, ◌>>◌, and_then}

-- What the cache calls of the crate redis: `Client::open`, `get_connection`, and `set` and `get` of
-- `Commands`, on the server behind the client.
pub record Redis : Type 1 where
  pub Client : Type 0
  pub Server : Type 0
  pub open_client : String → Outcome Client
  pub get_connection : Client → Server → Outcome (Unit {0})
  pub set : Client → String → String → Exec Server (Unit {0})
  pub get : Client → String → Server → Outcome String
  -- `u64` in `format!("{}", _)`
  pub decimal : ℕ → String

-- a text, an underscore and a rest, as `format!("{}_{}", _, _)` puts them together
unfoldable pub join : String → String → String
join String.[] rest = String.◌∷◌ "_" rest
join (String.◌∷◌ c text) rest = String.◌∷◌ c (join text rest)

module _ (redis : Redis) where
  -- the key that `store` and `get` make
  unfoldable pub key_of : Request → String
  key_of r =
      join "tinyevm" (join r.chain (join (redis.decimal r.block) (join r.api r.request_hash)))

  -- `RedisProviderCache::new`
  unfoldable pub new_redis_cache : String → Outcome redis.Client
  new_redis_cache node = redis.open_client node

  -- `RedisProviderCache::default`, on the variable `TINYEVM_REDIS_NODE`
  unfoldable pub default_redis_cache : Option String → Outcome redis.Client
  unfolding new_redis_cache
  default_redis_cache none = panic
  default_redis_cache (some node) = unwrap (new_redis_cache node)

  module _ (client : redis.Client) where
    unfoldable pub store : Request → String → Exec redis.Server (Unit {0})
    store r response server =
        (do lift (redis.get_connection client server); redis.set client (key_of r) response) server

    unfoldable pub get : Request → redis.Server → Outcome String
    get r server =
        and_then (redis.get_connection client server) λ _. redis.get client (key_of r) server

    abbrev pub redis_cache : ProviderCache
    redis_cache = record { Store = redis.Server; store = store; get = get }
