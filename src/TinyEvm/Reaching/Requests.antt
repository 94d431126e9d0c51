-- ===== src/TinyEvm/Reaching/Requests.antt =====
-- src/lib.rs: what `deploy`, `deterministic_deploy` and `contract_call` do to the database.
use tevm.External.Execution.{TxResult}
use tevm.External.Numbers.{BigInt, Numbers}
use tevm.External.Printers.{Printers}
use tevm.Common.BigInts.{bigint_to_ruint_u256}
use tevm.Common.Text.{trim_prefix}
use tevm.External.Parsers.{Parsers}
use tevm.ForkDb.{Context}
use tevm.Prelude.{ℕ, List, ◌++◌, Bool, true, false, Option, none, some, String}
use tevm.Prelude.Outcome.{Exec, continue_keeps, >>=_keeps}
use tevm.TinyEvm.{TinyEvm, db_mut, world_of}
use tevm.TinyEvm.Accounts.{set_account_balance}
use tevm.TinyEvm.Reaching.Accounts.{set_balance_of-Reached}
use tevm.TinyEvm.Reaching.{
  InReach, TransactRuns, contract_call_helper-KeepsReach, deploy_helper-KeepsReach,
}
use tevm.TinyEvm.Requests.{
  address_or, bytes_or, contract_call, deploy, deterministic_deploy, force_address_of, fund,
  plain_address_or, salt_of, value_or,
}
use tevm.TinyEvm.Transactions.{deploy_helper}

module _ (cx : Context) (n : Numbers) (p : Printers) where
  set_account_balance-InReach :
      (address balance : ℕ) (t : TinyEvm cx)
      → InReach cx t
      → InReach cx (set_account_balance cx address balance t).1
  unfolding InReach set_account_balance db_mut
  set_account_balance-InReach address balance t reached =
      set_balance_of-Reached cx address balance (world_of cx t) reached

  fund-InReach :
      (success : Bool) (init_value : Option BigInt) (content : List ℕ) (t : TinyEvm cx)
      → InReach cx t
      → InReach cx (fund cx n p success init_value content t).1
  unfolding fund
  fund-InReach true (some balance) content t h0 =
      continue_keeps (InReach cx) (p.address_from_slice content) _ t h0 λ address h1.
        continue_keeps (InReach cx) (bigint_to_ruint_u256 n balance) _ t h1
          λ amount h2. set_account_balance-InReach address amount t h2
  fund-InReach true none content t reached = reached
  fund-InReach false init_value content t reached = reached

  module _ (parsers : Parsers) (transact_commit : Exec (TinyEvm cx) TxResult)
      (law : TransactRuns cx transact_commit) where
    pub deploy-InReach :
        (code : String) (owner : Option String) (t : TinyEvm cx)
        → InReach cx t
        → InReach cx (deploy cx n p parsers transact_commit code owner t).1
    unfolding deploy
    deploy-InReach code owner_text t h0 =
        continue_keeps (InReach cx) (plain_address_or parsers owner_text t.owner) _ t h0 λ owner h1.
          continue_keeps (InReach cx) (p.hex_decode code) _ t h1 λ bytecode h2.
            deploy_helper-KeepsReach cx n p transact_commit law owner bytecode 0 none none t h2

    pub contract_call-InReach :
        (contract : String) (sender content : Option String) (value : Option BigInt)
        (t : TinyEvm cx)
        → InReach cx t
        → InReach cx
            (contract_call cx n p parsers transact_commit contract sender content value t).1
    unfolding contract_call
    contract_call-InReach contract_text sender_text content_text value t h0 =
        continue_keeps (InReach cx) (address_or parsers sender_text t.owner) _ t h0 λ sender h1.
          continue_keeps (InReach cx) (parsers.address_from_str (trim_prefix contract_text "0x")) _
            t h1
            λ contract h2.
              continue_keeps (InReach cx) (bytes_or p content_text) _ t h2 λ content h3.
                continue_keeps (InReach cx) (bigint_to_ruint_u256 n (value_or n value)) _ t h3
                  λ amount h4.
                    contract_call_helper-KeepsReach cx n p transact_commit law contract sender
                      content amount none t h4

    pub deterministic_deploy-InReach :
        (code : String) (salt owner content : Option String) (value init_value : Option BigInt)
        (deploy_to_address : Option String) (t : TinyEvm cx)
        → InReach cx t
        → InReach cx
            (deterministic_deploy cx n p parsers transact_commit code salt owner content value
              init_value deploy_to_address t).1
    unfolding deterministic_deploy
    deterministic_deploy-InReach code_text salt_text owner_text content value init_value to t h0 =
        continue_keeps (InReach cx) (address_or parsers owner_text t.owner) _ t h0 λ owner h1.
          continue_keeps (InReach cx) (p.hex_decode code_text) _ t h1 λ code h2.
            continue_keeps (InReach cx) (bytes_or p content) _ t h2 λ arguments h3.
              continue_keeps (InReach cx) (salt_of parsers salt_text) _ t h3 λ salt h4.
                let bytecode = code ++ arguments in
                let derived = cx.ext.create2_address owner salt (cx.ext.keccak256 bytecode) in
                continue_keeps (InReach cx) (force_address_of parsers to derived) _ t h4 λ force h5.
                  continue_keeps (InReach cx) (bigint_to_ruint_u256 n (value_or n value)) _ t h5
                    λ amount h6.
                      >>=_keeps (InReach cx)
                        (deploy_helper cx n p transact_commit owner bytecode amount none
                          (some force))
                        _ t
                        (deploy_helper-KeepsReach cx n p transact_commit law owner bytecode amount
                          none (some force) t h6)
                        λ resp t1 h7.
                          >>=_keeps (InReach cx) (fund cx n p resp.success init_value resp.content)
                            _ t1 (fund-InReach resp.success init_value resp.content t1 h7)
                            λ _ t2 h8. h8
