-- ===== src/TinyEvm/Funding.antt =====
-- src/lib.rs: the balance that `deterministic_deploy` gives a contract.
use mathlib.Core.Path.{subst}
use tevm.Common.BigInts.{bigint_to_ruint_u256, ruint_u256_to_bigint, bigint_to_ruint_u256-ok}
use tevm.External.Execution.{TxResult}
use tevm.External.Numbers.{BigInt, Numbers, CountsBytes}
use tevm.External.Parsers.{Parsers}
use tevm.External.Printers.{Printers}
use tevm.ForkDb.{Context}
use tevm.Prelude.{ℕ, ◌≡◌, sym, ap, ◌∙◌, true, List, ◌++◌, Option, none, some, String}
use tevm.Prelude.Outcome.{Outcome, ok, Exec, continue-eq-ok, ok-injective, >>=-eq-ok}
use tevm.Response.{Response}
use tevm.TinyEvm.{TinyEvm}
use tevm.TinyEvm.Accounts.{get_eth_balance}
use tevm.TinyEvm.Requests.{
  address_or, salt_of, force_address_of, value_or, bytes_or, fund, deterministic_deploy,
}
use tevm.TinyEvm.AccountLaws.{set_account_balance_reads}
use tevm.TinyEvm.Transactions.{deploy_helper}

module _ (cx : Context) (n : Numbers) (p : Printers) (law : CountsBytes n) where
  -- the account at an address, given by its bytes, reports a balance without asking the node
  abbrev pub ReportsBalance : List ℕ → BigInt → TinyEvm cx → Type 0
  ReportsBalance content balance t =
      (a : ℕ) × (amount : ℕ) × (p.address_from_slice content ≡ ok a)
      × (get_eth_balance cx a t ≡ (ok amount, t))
      × (ruint_u256_to_bigint n amount ≡ balance)

  fund_reports :
      (balance : BigInt) (content : List ℕ) (t : TinyEvm cx) {u : Unit {0}} {t' : TinyEvm cx}
      → fund cx n p true (some balance) content t ≡ (ok u, t')
      → ReportsBalance content balance t'
  unfolding fund
  fund_reports balance content t {u} {t'} h =
      let (a, is_address, h1) = continue-eq-ok (p.address_from_slice content) _ t h in
      let (amount, is_amount, h2) = continue-eq-ok (bigint_to_ruint_u256 n balance) _ t h1 in
      (
        a,
        amount,
        is_address,
        subst (λ s. get_eth_balance cx a s ≡ (ok amount, s)) (ap (λ r. r.1) h2)
            (set_account_balance_reads cx a a amount 0 t).0,
        bigint_to_ruint_u256-ok n law balance is_amount,
      )

  -- the same for the response that is returned after it
  returned_reports :
      (answer resp : Response) (balance : BigInt) (t1 t2 t' : TinyEvm cx) {u : Unit {0}}
      → fund cx n p answer.success (some balance) answer.content t1 ≡ (ok u, t2)
      → ◌≡◌ {A = Outcome Response × TinyEvm cx} (ok answer, t2) (ok resp, t')
      → resp.success ≡ true
      → ReportsBalance resp.content balance t'
  returned_reports answer resp balance t1 t2 t' funded returned succeeds =
      let same : answer ≡ resp = ok-injective (ap (λ r. r.0) returned) in
      let yes : true ≡ answer.success = sym (ap (λ r. r.success) same ∙ succeeds) in
      subst {A = List ℕ × TinyEvm cx} (λ x. ReportsBalance x.0 balance x.1)
        (λ i. ((same i).content, (returned i).1))
        (fund_reports balance answer.content t1
          (ap (λ b. fund cx n p b (some balance) answer.content t1) yes ∙ funded))

  module _ (parsers : Parsers) (transact_commit : Exec (TinyEvm cx) TxResult) where
    -- When a deterministic deployment returns a successful response and a balance was asked for,
    -- the data of the response are an address, and `get_eth_balance` of that address returns
    -- exactly that balance, without asking the node.
    pub deterministic_deploy_funds :
        (code : String) (salt owner content : Option String) (value : Option BigInt)
        (balance : BigInt) (deploy_to_address : Option String) (t : TinyEvm cx) {resp : Response}
        {t' : TinyEvm cx}
        → deterministic_deploy cx n p parsers transact_commit code salt owner content value
            (some balance)
            deploy_to_address
            t
          ≡ (ok resp, t')
        → resp.success ≡ true
        → ReportsBalance resp.content balance t'
    unfolding deterministic_deploy
    deterministic_deploy_funds code salt owner content value balance deploy_to_address t {resp} {t'}
          h succeeds =
        let (from, _, h1) = continue-eq-ok (address_or parsers owner t.owner) _ t h in
        let (bytes, _, h2) = continue-eq-ok (p.hex_decode code) _ t h1 in
        let (arguments, _, h3) = continue-eq-ok (bytes_or p content) _ t h2 in
        let (salted, _, h4) = continue-eq-ok (salt_of parsers salt) _ t h3 in
        let derived = cx.ext.create2_address from salted (cx.ext.keccak256 (bytes ++ arguments)) in
        let (force, _, h5) =
          continue-eq-ok (force_address_of parsers deploy_to_address derived) _ t h4 in
        let (amount, _, h6) = continue-eq-ok (bigint_to_ruint_u256 n (value_or n value)) _ t h5 in
        let (answer, t1, _, h7) =
          >>=-eq-ok
            (deploy_helper cx n p transact_commit from (bytes ++ arguments) amount none
              (some force))
            _ t h6 in
        let (_, t2, funded, h8) =
          >>=-eq-ok (fund cx n p answer.success (some balance) answer.content) _ t1 h7 in
        returned_reports answer resp balance t1 t2 t' funded h8 succeeds
