-- ===== src/External.antt =====
-- What the program calls and does not implement: hashing, address derivation, the default account
-- code and the signed comparison of revm, as parameters, with the documented facts as laws.
pub mod Calls
pub mod Execution
pub mod Numbers
pub mod Parsers
pub mod Printers
use tevm.Prelude.{ℕ, ◌+◌, ◌%◌, ◌^◌, ◌≡◌, List, [], Option, compare, Ordering}
use tevm.Words.{u256_size}

-- The opcodes that the source names; `other` is any further defined opcode.
pub data OpCode : Type 0 where
  add mul sub div sdiv modulo smod addmod mulmod exp : OpCode
  lt gt slt sgt eq and keccak256 : OpCode
  origin blobhash coinbase timestamp number difficulty : OpCode
  sload sstore jumpi call callcode delegatecall staticcall : OpCode
  create create2 selfdestruct revert invalid : OpCode
  other : ℕ → OpCode

pub record Externals : Type 0 where
  -- `OpCode::new`, `get` and `inputs` of revm
  pub opcode_new : ℕ → Option OpCode
  pub opcode_get : OpCode → ℕ
  pub opcode_inputs : OpCode → ℕ
  -- `i256_cmp` of revm
  pub i256_cmp : ℕ → ℕ → Ordering
  -- `keccak256`, and the constant `KECCAK_EMPTY`
  pub keccak256 : List ℕ → ℕ
  pub keccak_empty : ℕ
  -- `to_be_bytes` of a 256-bit word
  pub word_bytes : ℕ → List ℕ
  -- the code of `AccountInfo::default()`
  pub default_code : Option (List ℕ)
  pub default_padding : List ℕ
  -- `Address::create` and `Address::create2`
  pub create_address : ℕ → ℕ → ℕ
  pub create2_address : ℕ → ℕ → ℕ → ℕ

-- A two's complement word, shifted so that the unsigned order is the signed one.
abbrev pub bias : ℕ → ℕ
bias x = (x + 2 ^ 255) % u256_size

-- `i256_cmp` compares its arguments as two's complement integers.
pub record ComparesSigned (ext : Externals) : Type 0 where
  pub signed : (a b : ℕ) → ext.i256_cmp a b ≡ compare (bias a) (bias b)

-- `KECCAK_EMPTY` is the hash of the empty byte string.
pub record HashesEmpty (ext : Externals) : Type 0 where
  pub empty : ext.keccak256 [] ≡ ext.keccak_empty

-- What the hooks read of revm's interpreter: the byte at the program counter, the stack from its
-- top, the memory of the current call, and the address of the running contract.
pub record Interpreter : Type 0 where
  pub current_opcode : ℕ
  pub program_counter : ℕ
  pub stack : List ℕ
  pub memory : List ℕ
  pub target_address : ℕ
