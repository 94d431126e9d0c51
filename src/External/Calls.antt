-- ===== src/External/Calls.antt =====
-- The types of revm that the hooks for calls and logs are given, as far as the hooks read them.
use tevm.Prelude.{ℕ, List}

pub record EvmLog : Type 0 where
  pub address : ℕ
  pub topics : List ℕ
  pub content : List ℕ

pub data CallScheme : Type 0 where
  call call_code delegate_call static_call : CallScheme

pub data CallValue : Type 0 where
  transfer : ℕ → CallValue
  apparent : ℕ → CallValue

pub record CallInputs : Type 0 where
  pub input : List ℕ
  pub bytecode_address : ℕ
  pub target_address : ℕ
  pub caller : ℕ
  pub value : CallValue
  pub scheme : CallScheme

pub record CallOutcome : Type 0 where
  pub output : List ℕ
  pub result : ℕ
