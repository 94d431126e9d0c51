-- ===== src/Tests/Chain.antt =====
-- The theorems on the cache, the provider and the database, at concrete inputs.
use tevm.Cache.{ProviderCache, IsCache}
use tevm.Cache.FileSystem
use tevm.Cache.FileEntries.{file_system_cache-IsCache}
use tevm.Cache.FilePaths.{IsNamed}
use tevm.Cache.FileSystem.{Disk, file_system_cache}
use tevm.Tests.Files.{files-KeepsFiles}
use tevm.ForkDb.{World}
use tevm.ForkDb.Commit.{Account, commit}
use tevm.ForkDb.Commits.{KeysAreDistinct, account-commit, changed}
use tevm.ForkDb.Database
use tevm.ForkDb.Database.{
  basic, storage, block_hash, held_slot, load_account, fetch_account, unwrap_provider,
  provider_call, record_loaded, read_slot, load_slot, record_slot, insert_account_storage,
  replace_account_storage,
}
use tevm.ForkDb.Accounts
use tevm.ForkDb.Reads.{basic_settles}
use tevm.ForkDb.Slots.{storage_settles, replaced_storage_reads, replaced_slot, replaced}
use tevm.ForkProvider
use tevm.ForkProvider.{Reader, nonce_reader, request, cached_read, get_block}
use tevm.ForkProvider.Coherence.{Agrees, RoundTrips, cached_read_correct}
use tevm.ForkProvider.MissingBlock.{get_block_twice}
use tevm.Prelude.{
  ℕ, ◌≡◌, refl, Bool, true, false, ◌↔◌, [], ◌∷◌, none, some, arith, HashMap, if◌then◌else◌,
}
use tevm.Prelude.Maps
use tevm.Prelude.Texts
use tevm.Prelude.Outcome.{ok, panic, io_failed}
use text.Mathlib.Text.{◌==◌ as str_eq}
use tevm.Words
use tevm.Tests.{
  files, ext, ext-HashesEmpty, codec, remote, disk, context, info, account, fork, world,
}

abbrev cache : ProviderCache
cache = file_system_cache files

cache-IsCache : IsCache cache IsNamed
cache-IsCache = file_system_cache-IsCache files files-KeepsFiles

-- the read of the nonce of the account 1
abbrev nonces : Reader ℕ
nonces = nonce_reader codec remote 1

disk-Agrees : {A : Type 0} (rd : Reader A) → Agrees cache rd 100 disk
unfolding FileSystem.get Texts.get FileSystem.write_entry
disk-Agrees rd = record { at = λ v h. absurd (ground (arith, h)) }

cached_read_correct_example :
    ((cached_read cache nonces (some 100) disk).0 ≡ ok 3) ↔ (nonces.fetch (some 100) ≡ ok 3)
unfolding FileSystem.store Texts.get FileSystem.write_entry
cached_read_correct_example =
    cached_read_correct cache IsNamed cache-IsCache nonces 100 disk 3 (disk-Agrees nonces) refl

-- a read of one of two answers
abbrev flags : Reader Bool
flags = record {
  api = "flag";
  key = "key";
  decode = λ text. ok (str_eq text "yes");
  encode = λ b. if b then "yes" else "no";
  fetch = λ _. ok true;
}

flags-RoundTrips : RoundTrips flags
flags-RoundTrips = record {
  trip = λ b. elim b as (λ k. flags.decode (flags.encode k) ≡ ok k) [ true ↦ refl | false ↦ refl ];
}

get_block_twice_example :
    let (first, s') = get_block cache codec remote 100 disk in
    (first ≡ ok none) × ((get_block cache codec remote 100 s').0 ≡ panic)
unfolding FileSystem.get FileSystem.store Texts.get FileSystem.write_entry
get_block_twice_example =
    get_block_twice cache IsNamed cache-IsCache codec remote 100 disk {x = io_failed}
      {y = io_failed} "null" refl refl refl refl refl

-- the world without its fork
abbrev offline : World context
offline = record world { db = record fork { fork_enabled = false } }

basic_settles_example :
    basic context 2 (basic context 2 world).1
    ≡ (ok (some (record info { balance = 3; nonce = 3 })), (basic context 2 world).1)
unfolding basic load_account fetch_account unwrap_provider provider_call record_loaded
    Database.is_remote Accounts.insert_account_info ForkProvider.get_transaction_count
    ForkProvider.get_balance ForkProvider.get_code FileSystem.store FileSystem.get Maps.get
    Maps.insert Maps.remove Maps.entry_or Words.try_usize Texts.get FileSystem.write_entry
    Texts.insert FileSystem.entry_path FileSystem.join_path FileSystem.is_absolute
    FileSystem.is_open FileSystem.dir_path FileSystem.slashed
basic_settles_example = basic_settles context 2 world ext-HashesEmpty refl

storage_settles_example :
    storage context 1 4 (storage context 1 4 world).1 ≡ (ok 9, (storage context 1 4 world).1)
unfolding storage basic read_slot load_slot held_slot record_slot unwrap_provider provider_call
    ForkProvider.get_storage_at FileSystem.store FileSystem.get Maps.get Maps.contains_key
    Maps.insert Maps.remove Maps.entry_or Accounts.write_slot Texts.get FileSystem.write_entry
    Texts.insert FileSystem.entry_path FileSystem.join_path FileSystem.is_absolute
    FileSystem.is_open FileSystem.dir_path FileSystem.slashed
storage_settles_example = storage_settles context 1 4 world ext-HashesEmpty refl

replaced_storage_reads_example :
    storage context 1 5 (replaced context 1 [] world)
    ≡ replaced_slot context 1 5 [] world (replaced context 1 [] world)
unfolding replace_account_storage basic Maps.get
replaced_storage_reads_example =
    replaced_storage_reads context 1 5 [] world {account = account} refl refl

-- a deposit to account 1, and the destruction of account 3
abbrev deposit : Account
deposit = record {
  info = record info { balance = 90 };
  storage = (6, 1) ∷ [];
  is_touched = true;
  is_selfdestructed = false;
  is_created = false;
}

abbrev destruction : Account
destruction = record deposit { is_selfdestructed = true }

abbrev changes : HashMap Account
changes = (1, deposit) ∷ (3, destruction) ∷ []

changes-KeysAreDistinct : KeysAreDistinct changes
unfolding Maps.get
changes-KeysAreDistinct =
    KeysAreDistinct.entry 1 deposit _ refl
      (KeysAreDistinct.entry 3 destruction _ refl KeysAreDistinct.empty)

account-commit_example :
    Maps.get (commit ext changes fork).accounts 1
    ≡ changed ext fork (Maps.get changes 1) (Maps.get fork.accounts 1)
account-commit_example = account-commit ext changes fork 1 changes-KeysAreDistinct
