-- ===== src/Tests.antt =====
-- Concrete libraries, states and inputs for the tests in the children.
pub mod Libraries
pub mod Inspectors
pub mod Chain
pub mod Evm
pub mod Conversions
pub mod Requests
pub mod Forks
pub mod Reached
pub mod Files
use tevm.Cache.FileSystem.{Disk, FileSystem, file_system_cache}
use tevm.Prelude.Texts
use tevm.Prelude.Texts.{TextMap}
use tevm.External.{Externals, OpCode, Interpreter, HashesEmpty, ComparesSigned, bias}
use tevm.External.Calls.{CallInputs, CallOutcome, CallScheme, CallValue}
use tevm.ForkDb.{AccountInfo, AccountState, Context, DbAccount, ForkDb, World}
use tevm.ForkProvider.{Block, Codec, Remote}
use tevm.Instrument.Bug.{Bug, BugType}
use tevm.Instrument.BugInspector.{BugInspector, default_bug_inspector}
use tevm.Instrument.LogInspector.{LogInspector, Tracing, default_log_inspector}
use tevm.Prelude.{
  ℕ, zero, suc, String, ◌+◌, ◌==◌, true, false, refl, List, [], ◌∷◌, Option, none, some, compare,
  if◌then◌else◌,
}
use tevm.Prelude.Outcome.{Outcome, ok, err, io_failed}

abbrev sum_of : List ℕ → ℕ
sum_of [] = 7
sum_of (b ∷ bytes) = b + sum_of bytes

abbrev opcode_of : ℕ → Option OpCode
opcode_of n = if n == 1 then some OpCode.add else if n == 2 then some OpCode.mul else none

abbrev pub ext : Externals
ext = record {
  opcode_new = opcode_of;
  opcode_get = λ _. 1;
  opcode_inputs = λ _. 2;
  i256_cmp = λ a b. compare (bias a) (bias b);
  keccak256 = sum_of;
  keccak_empty = 7;
  word_bytes = λ n. n ∷ [];
  default_code = some [];
  default_padding = 0 ∷ [];
  create_address = λ owner nonce. owner + nonce + 100;
  create2_address = λ owner salt hash. owner + salt + hash;
}

pub ext-HashesEmpty : HashesEmpty ext
ext-HashesEmpty = record { empty = refl }

pub ext-ComparesSigned : ComparesSigned ext
ext-ComparesSigned = record { signed = λ a b. refl }

-- an interpreter at an opcode byte with a stack
abbrev pub at : ℕ → List ℕ → Interpreter
at byte stack = record {
  current_opcode = byte;
  program_counter = 12;
  stack = stack;
  memory = [];
  target_address = 50;
}

abbrev pub bug_of : BugType → Bug
bug_of t = record { bug_type = t; opcode = 1; position = 3; address_index = 0 }

abbrev pub tracer : LogInspector
tracer = record default_log_inspector { trace_enabled = true }

abbrev pub tracing : Tracing
tracing = record { locals = record { counter = 0; call_depth = 0 }; inspector = tracer }

abbrev pub call_inputs : CallInputs
call_inputs = record {
  input = 1 ∷ [];
  bytecode_address = 8;
  target_address = 8;
  caller = 9;
  value = CallValue.transfer 5;
  scheme = CallScheme.call;
}

abbrev pub call_outcome : CallOutcome
call_outcome = record { output = 2 ∷ []; result = 1 }

-- a name for each number, in strokes
abbrev pub tally : ℕ → String
tally zero = "n"
tally (suc b) = String.◌∷◌ "1" (tally b)

-- files in a list by their paths, all of which can be written
abbrev pub files : FileSystem
files = record {
  Files = TextMap String;
  create_dir_all = λ _ f. (ok tt, f);
  create = λ path f. (ok tt, Texts.insert path "" f);
  write_all = λ path v f. (ok tt, Texts.insert path v f);
  read_to_string = λ path f. elim (Texts.get f path) [ none ↦ err io_failed | some v ↦ ok v ];
  decimal = tally;
}

abbrev pub disk : Disk files
disk = record { home = some "/home/user"; files = [] }

abbrev pub codec : Codec
codec = record {
  hex_address = λ _. "address";
  hex_slot = λ _ _. "slot";
  hex_number = λ _. "number";
  print_u256 = λ _. "3";
  parse_u256 = λ _. ok 3;
  print_bytes = λ _. "00";
  parse_bytes = λ _. ok [];
  print_h256 = λ _. "9";
  parse_h256 = λ _. ok 9;
  print_block = λ _. ok "null";
  parse_block = λ _. err io_failed;
}

-- a node that knows one account state and no block
abbrev pub remote : Remote
remote = record {
  get_block_number = ok 100;
  get_transaction_count = λ _ _. ok 3;
  get_balance = λ _ _. ok 3;
  get_code = λ _ _. ok [];
  get_block = λ _. ok none;
  get_storage_at = λ _ _ _. ok 9;
}

abbrev pub context : Context
context = record { ext = ext; cache = file_system_cache files; codec = codec; remote = remote }

abbrev pub info : AccountInfo
info = record { balance = 40; nonce = 2; code_hash = 7; code = some []; padding = [] }

-- the account 1, with the slot 5
abbrev pub account : DbAccount
account = record { info = info; account_state = AccountState.untouched; storage = (5, 6) ∷ [] }

-- a database on a fork at block 100, which holds the account 1 and knows it to be remote
abbrev pub fork : ForkDb
fork = record {
  accounts = (1, account) ∷ [];
  contracts = [];
  block_hashes = [];
  fork_enabled = true;
  has_provider = true;
  block_id = some 100;
  remote_addresses = (1, 5 ∷ []) ∷ [];
  ignored_addresses = [];
  block_cache = [];
  max_fork_depth = 4;
}

abbrev pub world : World context
world = record { db = fork; store = disk; call_depth = 0 }
