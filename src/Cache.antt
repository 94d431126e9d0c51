-- ===== src/Cache.antt =====
-- src/cache: the trait `ProviderCache`, and the file system cache in the child.
pub mod FileSystem
pub mod FilePaths
pub mod FileEntries
pub mod Redis
pub mod RedisKeys
use tevm.Prelude.{ℕ, ◌≡◌, ◌≢◌, Option, String}
use tevm.Prelude.Outcome.{Outcome, Exec, ok, panic}

-- the arguments by which an entry is found
pub record Request : Type 0 where
  pub chain : String
  pub block : ℕ
  pub api : String
  pub request_hash : String

-- The trait. `Store` is the storage behind the cache, a disk or a server, which every clone of the
-- cache shares.
pub record ProviderCache : Type 1 where
  pub Store : Type 0
  pub store : Request → String → Exec Store (Unit {0})
  pub get : Request → Store → Outcome String

-- What the clients of a cache rely on: an entry that was stored is read back, storing touches no
-- entry of another request, whether it fails or not, if both are requests that `Named` allows, and a
-- lookup ends with an entry or an error.
pub record IsCache (c : ProviderCache) (Named : Request → Type 0) : Type 0 where
  pub get-store :
      (r : Request) (v : String) (s : c.Store)
      → (c.store r v s).0 ≡ ok tt
      → c.get r (c.store r v s).1 ≡ ok v
  pub get-store_ne :
      (r q : Request) (v : String) (s : c.Store)
      → Named r
      → Named q
      → r ≢ q
      → c.get q (c.store r v s).1 ≡ c.get q s
  pub get-ne-panic : (r : Request) (s : c.Store) → c.get r s ≢ panic
