-- ===== src/TinyEvm/Steps/CodeRead.antt =====
-- src/lib.rs: the code that is read after any requests.
use tevm.External.Execution.{TxResult}
use tevm.External.Numbers.{Numbers}
use tevm.External.Parsers.{Parsers}
use tevm.External.Printers.{Printers}
use tevm.ForkDb
use tevm.ForkDb.{AccountInfo, Context, World}
use tevm.ForkDb.Contracts.{HoldsCode}
use tevm.ForkDb.Database
use tevm.ForkDb.Steps.{created}
use tevm.ForkDb.Steps.CodeHeld.{KnowsCode, basic-KnowsCode}
use tevm.Prelude.{ℕ, ◌≡◌, ◌⊎◌, refl, Bool, List, Option, some, inl, inr, arith, ◌++◌}
use tevm.Prelude.Outcome.{ok, Exec}
use tevm.TinyEvm.{TinyEvm, run_db, world_of}
use tevm.TinyEvm.Accounts.{code_of, get_code_by_address}
use tevm.TinyEvm.Reaching.{TransactRuns}
use tevm.TinyEvm.Steps.{RequestRuns, RequestRuns-Reached}

-- Bytes that are the code of an account: the original ones, which have its hash, and behind them the
-- padding of the analysis, unless the account has the hash of no bytes.
abbrev pub IsCodeOf : Context → List ℕ → AccountInfo → Type 0
IsCodeOf cx bytes info =
    (info.code_hash ≡ cx.ext.keccak_empty)
    ⊎ ((original : List ℕ) × (cx.ext.keccak256 original ≡ info.code_hash)
        × (bytes ≡ original ++ info.padding))

module _ (cx : Context) where
  get_code_by_address-basic :
      (a : ℕ) (t : TinyEvm cx) {info : AccountInfo} {w : World cx}
      → Database.basic cx a (world_of cx t) ≡ (ok (some info), w)
      → (get_code_by_address cx a t).0 ≡ ok (code_of (some info))
  unfolding get_code_by_address run_db
  get_code_by_address-basic a t e = rw e refl

  KnowsCode-IsCodeOf :
      (info : AccountInfo) → KnowsCode cx info → IsCodeOf cx (code_of (some info)) info
  KnowsCode-IsCodeOf info (inl empty) = inl empty
  KnowsCode-IsCodeOf info (inr (code, is_code, hash)) = inr (code, hash, ground (arith, is_code))

  module _ (n : Numbers) (p : Printers) (parsers : Parsers)
      (transact_commit : Exec (TinyEvm cx) TxResult) (law : TransactRuns cx transact_commit) where
    -- After any number of the following requests on a new database, in any order and with errors
    -- and panics among them: deployments and calls; writes and reads of balances and code; writes of
    -- storage; resets of accounts and storage; removals by `nuke_account`; clones; and changes of the
    -- fork mode; snapshots are not among them. Then `get_code_by_address` returns, for an account
    -- that `basic` finds, the bytes whose hash `basic` gives to revm, followed by the padding that
    -- the analysis of the code added, unless that is the hash of no bytes. After this read every
    -- account of the database has the hash of no bytes, or carries the code of its hash, which is
    -- filed. The execution of a transaction is assumed to run the operations of the database, and to
    -- write infos with the hash of their code.
    pub get_code_by_address-IsCodeOf :
        (has_provider : Bool) (block_id : Option ℕ) (depth : Option (Option ℕ)) {t t' : TinyEvm cx}
        (a : ℕ) {info : AccountInfo} {w : World cx}
        → ForkDb.create_with_provider cx.remote has_provider block_id depth ≡ ok t.db
        → RequestRuns cx n p parsers transact_commit t t'
        → Database.basic cx a (world_of cx t') ≡ (ok (some info), w)
        → (code : List ℕ) × ((get_code_by_address cx a t').0 ≡ ok code)
          × IsCodeOf cx code info
          × HoldsCode cx.ext w.db
    get_code_by_address-IsCodeOf has_provider block_id depth {t} {t'} a {info} new runs e =
        let reached =
          RequestRuns-Reached cx n p parsers transact_commit law runs
            (created has_provider block_id depth (world_of cx t) new) in
        let (holds, knows) = basic-KnowsCode cx a (world_of cx t') reached e in
        (
          code_of (some info),
          get_code_by_address-basic a t' e,
          KnowsCode-IsCodeOf info knows,
          holds,
        )
