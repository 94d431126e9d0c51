-- ===== src/ForkDb/Steps.antt =====
-- src/fork_db.rs: the operations of the database in any order.
pub mod Keeps
pub mod Blocks
pub mod CodeHeld
use tevm.ForkDb
use tevm.ForkDb.{AccountInfo, Context, DbAccount, World}
use tevm.ForkDb.Accounts
use tevm.ForkDb.Commit
use tevm.ForkDb.Commit.{Account}
use tevm.ForkDb.Contracts.{AllMatch, MatchesCode}
use tevm.ForkDb.Database
use tevm.ForkDb.Database.{on_db}
use tevm.Prelude.{ℕ, ◌≡◌, Bool, Option, some, HashMap}
use tevm.Prelude.Maps
use tevm.Prelude.Outcome.{ok}

-- One operation, and the state after it, however the operation ends. The last five are what others
-- do to the fields of the database, to the cache and to the call depth. Infos come with the hash of
-- their code.
pub data DbStep (cx : Context) : World cx → World cx → Type 0 where
  basic : (address : ℕ) (w : World cx) → DbStep cx w (Database.basic cx address w).1
  storage : (address index : ℕ) (w : World cx) → DbStep cx w (Database.storage cx address index w).1
  block_hash : (number : ℕ) (w : World cx) → DbStep cx w (Database.block_hash cx number w).1
  get_fork_block : (w : World cx) → DbStep cx w (Database.get_fork_block cx w).1
  insert_account_storage :
      (address slot value : ℕ) (w : World cx)
      → DbStep cx w (Database.insert_account_storage cx address slot value w).1
  replace_account_storage :
      (address : ℕ) (slots : HashMap ℕ) (w : World cx)
      → DbStep cx w (Database.replace_account_storage cx address slots w).1
  insert_account_info :
      (address : ℕ) (info : AccountInfo) (w : World cx)
      → MatchesCode cx.ext info
      → DbStep cx w (on_db cx (Accounts.insert_account_info cx.ext address info) w)
  commit :
      (changes : HashMap Account) (w : World cx)
      → AllMatch cx.ext changes
      → DbStep cx w (on_db cx (Commit.commit cx.ext changes) w)
  set_fork_enabled :
      (enabled : Bool) (w : World cx)
      → DbStep cx w (on_db cx (λ db. record db { fork_enabled = enabled }) w)
  remove :
      (address : ℕ) (w : World cx)
      → DbStep cx w (on_db cx (λ db. record db { accounts = Maps.remove address db.accounts }) w)
  set_balance :
      (address balance : ℕ) (account : DbAccount) (w : World cx)
      → Maps.get w.db.accounts address ≡ some account
      → DbStep cx w (
          on_db cx
            (Accounts.set_account cx.ext address
              (record account { info = record account.info { balance = balance } }))
            w)
  copy :
      (from to : ℕ) (account : DbAccount) (w : World cx)
      → Maps.get w.db.accounts from ≡ some account
      → DbStep cx w (on_db cx (Accounts.set_account cx.ext to account) w)
  elsewhere :
      (store : cx.cache.Store) (call_depth : ℕ) (w : World cx)
      → DbStep cx w (record w { store = store; call_depth = call_depth })

-- The states that a database reaches from its creation.
pub data Reached (cx : Context) : World cx → Type 0 where
  created :
      (has_provider : Bool) (block_id : Option ℕ) (depth : Option (Option ℕ)) (w : World cx)
      → ForkDb.create_with_provider cx.remote has_provider block_id depth ≡ ok w.db
      → Reached cx w
  next : {w w' : World cx} → Reached cx w → DbStep cx w w' → Reached cx w'

-- any number of operations
pub data DbRuns (cx : Context) : World cx → World cx → Type 0 where
  idle : (w : World cx) → DbRuns cx w w
  after : {a b c : World cx} → DbRuns cx a b → DbStep cx b c → DbRuns cx a c

pub Reached-DbRuns :
    {cx : Context} {w w' : World cx} → Reached cx w → DbRuns cx w w' → Reached cx w'
Reached-DbRuns reached (idle w) = reached
Reached-DbRuns reached (after runs step) = next (Reached-DbRuns reached runs) step
