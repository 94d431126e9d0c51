-- ===== src/ForkDb.antt =====
-- src/fork_db.rs: the in-memory database that loads from the forked chain. This file has its state
-- and what creates it; the operations are in the children `Accounts`, `Database` and `Commit`.
pub mod Accounts
pub mod Database
pub mod Commit
pub mod Laws
pub mod Reads
pub mod ForkBlock
pub mod Slots
pub mod Commits
pub mod Contracts
pub mod Steps
use tevm.Cache.{ProviderCache}
use tevm.External.{Externals}
use tevm.ForkProvider.{Block, Codec, Remote}
use tevm.Prelude.{
  ℕ, Bool, true, false, ◌&&◌, not, List, [], Option, none, some, is_some, unwrap_or, if◌then◌else◌,
  HashMap,
}
use tevm.Prelude.Outcome.{Outcome, ok, unwrap, and_then}
use tevm.Words.{u64_max}

-- revm's `AccountInfo`, `AccountState` and `DbAccount`. Its `Bytecode` is `code`, the original bytes,
-- which its hash and its emptiness are those of, with `padding`, the bytes that the analysis of the
-- code appended: none for raw code.
pub record AccountInfo : Type 0 where
  pub balance : ℕ
  pub nonce : ℕ
  pub code_hash : ℕ
  pub code : Option (List ℕ)
  pub padding : List ℕ

pub data AccountState : Type 0 where
  not_existing touched storage_cleared untouched : AccountState

abbrev pub is_storage_cleared : AccountState → Bool
is_storage_cleared AccountState.storage_cleared = true
is_storage_cleared _ = false

pub record DbAccount : Type 0 where
  pub info : AccountInfo
  pub account_state : AccountState
  pub storage : HashMap ℕ

-- The provider is represented by whether there is one: the node that it calls is a parameter, and
-- the cache that it holds is in `DbWorld`, since clones share it.
pub record ForkDb : Type 0 where
  pub accounts : HashMap DbAccount
  pub contracts : HashMap (List ℕ)
  pub block_hashes : HashMap ℕ
  pub fork_enabled : Bool
  pub has_provider : Bool
  pub block_id : Option ℕ
  pub remote_addresses : HashMap (List ℕ)
  pub ignored_addresses : List ℕ
  pub block_cache : HashMap Block
  pub max_fork_depth : ℕ

-- the libraries, the node and the cache that the database is run with
pub record Context : Type 1 where
  pub ext : Externals
  pub cache : ProviderCache
  pub codec : Codec
  pub remote : Remote

-- What an operation of the database reads and writes: the database, the storage behind the cache,
-- and the thread-local `CALL_DEPTH`, which it only reads.
pub record DbWorld (Store : Type 0) : Type 0 where
  pub db : ForkDb
  pub store : Store
  pub call_depth : ℕ

abbrev pub World : Context → Type 0
World cx = DbWorld cx.cache.Store

module _ (ext : Externals) where
  -- `AccountInfo::default()` and `DbAccount::default()`
  abbrev pub default_info : AccountInfo
  default_info = record {
    balance = 0;
    nonce = 0;
    code_hash = ext.keccak_empty;
    code = ext.default_code;
    padding = ext.default_padding;
  }

  abbrev pub default_account : DbAccount
  default_account = record {
    info = default_info;
    account_state = AccountState.untouched;
    storage = [];
  }

-- `TINYEVM_MAX_FORK_DEPTH`: `none` if it is not set, `some none` if it is no number
unfoldable pub max_fork_depth_of : Option (Option ℕ) → ℕ
max_fork_depth_of none = u64_max
max_fork_depth_of (some parsed) = unwrap_or parsed 0

abbrev pub new_db : Bool → Option ℕ → ℕ → ForkDb
new_db has_provider block_id depth = record {
  accounts = [];
  contracts = [];
  block_hashes = [];
  fork_enabled = has_provider;
  has_provider = has_provider;
  block_id = block_id;
  remote_addresses = [];
  ignored_addresses = [];
  block_cache = [];
  max_fork_depth = depth;
}

-- `ForkDB::create_with_provider`
unfoldable pub create_with_provider : Remote → Bool → Option ℕ → Option (Option ℕ) → Outcome ForkDb
unfolding max_fork_depth_of
create_with_provider remote has_provider block_id depth =
    if has_provider && not (is_some block_id)
    then and_then (unwrap remote.get_block_number)
        (λ number. ok (new_db has_provider (some number) (max_fork_depth_of depth)))
    else ok (new_db has_provider block_id (max_fork_depth_of depth))

-- `ForkDB::create`
unfoldable pub create : Remote → Option (Option ℕ) → Outcome ForkDb
create remote depth = create_with_provider remote false none depth
