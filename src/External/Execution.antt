-- ===== src/External/Execution.antt =====
-- What `transact_commit` of revm returns.
use tevm.Prelude.{ℕ, List, Option}

-- revm's `Output`, `HaltReason`, `ExecutionResult`
pub data Output : Type 0 where
  call : List ℕ → Output
  create : List ℕ → Option ℕ → Output

pub data HaltReason : Type 0 where
  create_collision : HaltReason
  other : ℕ → HaltReason

-- with the gas that was used first
pub data ExecutionResult : Type 0 where
  success : ℕ → Output → ExecutionResult
  revert : ℕ → List ℕ → ExecutionResult
  halt : ℕ → HaltReason → ExecutionResult

-- the `Result` of `transact_commit`
pub data TxResult : Type 0 where
  executed : ExecutionResult → TxResult
  refused : ℕ → TxResult
