-- ===== src/TinyEvm/Refusals.antt =====
-- src/lib.rs: the requests of Python that end with an error.
use tevm.Common.BigInts.{bigint_to_ruint_u256}
use tevm.Common.Text.{trim_prefix}
use tevm.External.Execution.{TxResult}
use tevm.External.Numbers.{BigInt, Numbers}
use tevm.External.Parsers.{Parsers}
use tevm.External.Printers.{Printers, KeepsAddresses}
use tevm.ForkDb.{Context}
use tevm.Prelude.{
  ℕ, ◌≡◌, refl, sym, ap, ◌∙◌, Bool, true, false, List, ◌++◌, Option, none, some, String, ◌⊎◌, inl,
  inr,
}
use tevm.Prelude.Outcome.{ok≢err, Outcome, Error, ok, err, Exec}
use tevm.Response.{Response}
use tevm.TinyEvm.{TinyEvm, db_mut}
use tevm.TinyEvm.Accounts.{set_account_balance}
use tevm.TinyEvm.Errors.{
  NeverErrs, IsCollision, continue-errs, >>=-errs, contract_call_helper-NeverErrs,
  deploy_helper-IsCollision,
}
use tevm.TinyEvm.Requests.{
  address_or, plain_address_or, salt_of, force_address_of, value_or, bytes_or, fund, deploy,
  deterministic_deploy, contract_call,
}
use tevm.TinyEvm.Transactions.{deploy_helper}

-- a pure step that failed left the state
unchanged :
    {S A : Type 0} {r : Outcome A} {s s' : S} {e : Error}
    → ◌≡◌ {A = Outcome A × S} (r, s) (err e, s')
    → s' ≡ s
unchanged h = ap (λ x. x.1) (sym h)

module _ (cx : Context) (n : Numbers) (p : Printers) (parsers : Parsers)
    (transact_commit : Exec (TinyEvm cx) TxResult) (returns : NeverErrs transact_commit) where
  -- A call that ends with an error has changed nothing: the errors are those of its arguments, which
  -- are all parsed before the transaction, if the transaction itself returns or panics.
  pub contract_call_refused :
      (contract : String) (sender content : Option String) (value : Option BigInt) (t : TinyEvm cx)
      {e : Error} {t' : TinyEvm cx}
      → contract_call cx n p parsers transact_commit contract sender content value t ≡ (err e, t')
      → t' ≡ t
  unfolding contract_call
  contract_call_refused contract sender content value t {e} {t'} h =
      continue-errs (address_or parsers sender t.owner) _ t e h unchanged λ from _ h1.
        continue-errs (parsers.address_from_str (trim_prefix contract "0x")) _ t e h1 unchanged
          λ to _ h2. continue-errs (bytes_or p content) _ t e h2 unchanged λ bytes _ h3.
            continue-errs (bigint_to_ruint_u256 n (value_or n value)) _ t e h3 unchanged
              λ amount _ h4. absurd (
                contract_call_helper-NeverErrs cx n p transact_commit returns to from bytes amount
                  none t e t' h4)

  -- A deployment that ends with an error has changed nothing, or it met a contract at the address.
  pub deploy_refused :
      (code : String) (owner : Option String) (t : TinyEvm cx) {e : Error} {t' : TinyEvm cx}
      → deploy cx n p parsers transact_commit code owner t ≡ (err e, t')
      → (t' ≡ t) ⊎ IsCollision e
  unfolding deploy
  deploy_refused code owner t {e} {t'} h =
      continue-errs (plain_address_or parsers owner t.owner) _ t e h (λ k. inl (unchanged k))
        λ from _ h1.
          continue-errs (p.hex_decode code) _ t e h1 (λ k. inl (unchanged k))
            λ bytes _ h2. inr (
              deploy_helper-IsCollision cx n p transact_commit returns from bytes 0 none none t e t'
                h2)

  -- The deployment was made, and the balance for the new contract is no word.
  abbrev pub DeployedUnfunded : Option BigInt → Error → TinyEvm cx → TinyEvm cx → Type 0
  DeployedUnfunded init_value e t t' =
      (owner : ℕ) × (code : List ℕ) × (amount : ℕ) × (force : ℕ) × (resp : Response)
      × (balance : BigInt) × (deploy_helper cx n p transact_commit owner code amount none
            (some force) t
          ≡ (ok resp, t'))
      × (resp.success ≡ true)
      × (init_value ≡ some balance)
      × (bigint_to_ruint_u256 n balance ≡ err e)

  set_account_balance_returns :
      (address amount : ℕ) (t : TinyEvm cx) {e : Error} {t' : TinyEvm cx}
      → set_account_balance cx address amount t ≡ (err e, t')
      → ⊥
  unfolding set_account_balance db_mut
  set_account_balance_returns address amount t h = ok≢err (ap (λ x. x.0) h)

  -- `fund` fails only with a balance that is no word, before it writes
  fund_refused :
      (success : Bool) (init_value : Option BigInt) (content : List ℕ) (t : TinyEvm cx) {e : Error}
      {t' : TinyEvm cx}
      → KeepsAddresses p
      → fund cx n p success init_value content t ≡ (err e, t')
      → (balance : BigInt) × (success ≡ true)
        × (init_value ≡ some balance)
        × (bigint_to_ruint_u256 n balance ≡ err e)
        × (t ≡ t')
  unfolding fund
  fund_refused false init_value content t keeps h = absurd (ok≢err (ap (λ x. x.0) h))
  fund_refused true none content t keeps h = absurd (ok≢err (ap (λ x. x.0) h))
  fund_refused true (some balance) content t {e} {t'} keeps h =
      continue-errs (p.address_from_slice content) _ t e h
        (λ k. absurd (keeps.no_error content e (ap (λ x. x.0) k)))
        λ address _ h1.
          continue-errs (bigint_to_ruint_u256 n balance) _ t e h1
            (λ k. (balance, refl, refl, ap (λ x. x.0) k, ap (λ x. x.1) k))
            λ amount _ h2. absurd (set_account_balance_returns address amount t h2)

  -- A deterministic deployment that ends with an error has changed nothing, or it met a contract at
  -- the address, or the contract was deployed, and the state is the one after the deployment: then
  -- the balance that was asked for the contract is negative or too large. The transaction itself
  -- returns or panics.
  pub deterministic_deploy_refused :
      (code : String) (salt owner content : Option String) (value init_value : Option BigInt)
      (deploy_to_address : Option String) (t : TinyEvm cx) {e : Error} {t' : TinyEvm cx}
      → KeepsAddresses p
      → deterministic_deploy cx n p parsers transact_commit code salt owner content value init_value
          deploy_to_address t
        ≡ (err e, t')
      → (t' ≡ t) ⊎ (IsCollision e ⊎ DeployedUnfunded init_value e t t')
  unfolding deterministic_deploy
  deterministic_deploy_refused code salt owner content value init_value deploy_to_address t {e} {t'}
        keeps h =
      continue-errs (address_or parsers owner t.owner) _ t e h (λ k. inl (unchanged k))
        λ from _ h1.
          continue-errs (p.hex_decode code) _ t e h1 (λ k. inl (unchanged k))
            λ bytes _ h2.
              continue-errs (bytes_or p content) _ t e h2 (λ k. inl (unchanged k))
                λ arguments _ h3.
                  continue-errs (salt_of parsers salt) _ t e h3 (λ k. inl (unchanged k))
                    λ salted _ h4.
                      let derived =
                        cx.ext.create2_address from salted
                          (cx.ext.keccak256 (bytes ++ arguments)) in
                      continue-errs (force_address_of parsers deploy_to_address derived) _ t e h4
                        (λ k. inl (unchanged k))
                        λ force _ h5.
                          continue-errs (bigint_to_ruint_u256 n (value_or n value)) _ t e h5
                            (λ k. inl (unchanged k))
                            λ amount _ h6.
                              >>=-errs
                                (deploy_helper cx n p transact_commit from (bytes ++ arguments)
                                  amount none (some force))
                                _ t e h6
                                (λ k. inr (
                                  inl (
                                    deploy_helper-IsCollision cx n p transact_commit returns from
                                      (bytes ++ arguments) amount none (some force) t e t' k)))
                                λ resp t1 deployed h7.
                                  >>=-errs (fund cx n p resp.success init_value resp.content) _ t1 e
                                    h7
                                    (λ k.
                                      let (balance, succeeds, given, fails, same) =
                                        fund_refused resp.success init_value resp.content t1 keeps
                                          k in
                                      inr (
                                        inr (
                                          from,
                                          bytes ++ arguments,
                                          amount,
                                          force,
                                          resp,
                                          balance,
                                          deployed ∙ ap (λ x. (ok resp, x)) same,
                                          succeeds,
                                          given,
                                          fails,
                                        )))
                                    λ _ t2 _ h8. absurd (ok≢err (ap (λ x. x.0) h8))
