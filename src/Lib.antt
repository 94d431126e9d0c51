-- ===== src/Lib.antt =====
-- Verification of tinyevm, a Python binding of the EVM of revm with a forking database and with
-- inspectors that collect signals of bugs.
--
-- A caller drives `TinyEVM` (src/lib.rs): it sets accounts, takes snapshots, deploys and calls
-- contracts. A transaction is run by revm, which reads and writes accounts through `ForkDB`
-- (src/fork_db.rs) and runs the hooks of `ChainInspector` (src/chain_inspector.rs) at each
-- instruction, log, call and creation. `ForkDB` holds accounts in memory and loads what it does not
-- hold from a node through `ForkProvider` (src/fork_provider.rs), which keeps the answers of the node
-- in a cache (src/cache). The hooks go to `BugInspector`, which turns instructions into bug signals,
-- missed branches and distances, and to `LogInspector`, which collects logs and call traces. After a
-- transaction `TinyEVM` gathers what the inspectors hold in a `RevmResult`, which src/response.rs
-- converts into the `Response` that the caller reads. Arguments and answers are texts, big integers
-- and bytes, which the methods for Python parse, check and print (src/common.rs).
--
-- Modules:
--   Prelude         tests, lists, hash maps, and outcomes: a value, an error or a panic
--   Words           machine words: sizes, wrapping and saturating operations
--   External        revm and hashing: opcodes, the interpreter, and functions as parameters with laws;
--                   results of transactions in Execution, big integers in Numbers, the printers and
--                   parsers of texts in Printers
--   Common          src/common.rs: constants and `i256_diff`; `trim_prefix` in Text, the conversions
--                   of big integers in BigInts, `decode_hex_str` and `fn_sig_to_prefix` in Hex
--   Instrument.Bug  src/instrument/bug.rs: signals, `Heuristics`, `record_missed_branch`
--   Instrument.BugInspector
--                   src/instrument/bug_inspector.rs: the state and `add_bug`; `Step.step`,
--                   `StepEnd.step_end` with its arms in Checks, Distance and Control, and
--                   `CreateEnd.create_end`; what is shown of them is in Cycle, Faults, Seen,
--                   Overflow, Recent, Distances, Created and Fixed
--   Instrument.LogInspector
--                   src/instrument/log_inspector.rs: `log`, `call`, `call_end`; runs of them in
--                   Nesting, Siblings and Completion
--   ChainInspector  src/chain_inspector.rs: both inspectors in each hook; runs of hooks in Hooks
--   Cache           src/cache: the trait as a record with laws, src/cache/filesystem_cache.rs in
--                   FileSystem, with FilePaths and FileEntries, and src/cache/redis_cache.rs in
--                   Redis, with RedisKeys
--   ForkProvider    src/fork_provider.rs: the reads through the cache, with Coherence, MissingBlock
--   ForkDb          src/fork_db.rs: the state, with the operations in Accounts, Database and Commit
--                   and what is shown of them in Laws, Reads, Slots, Commits and ForkBlock;
--                   Steps is a relation of its operations in any order, with the code of accounts in
--                   Contracts and Steps.CodeHeld
--   Response        src/response.rs: the records; the types for Python with their conversions in
--                   BugTypes, Wrappers, Traces and Conversion, `SeenPcsMap` in SeenPcs; what is shown
--                   of them in Readable and Shown
--   TinyEvm         src/lib.rs: the state, with the operations in Accounts, Snapshots, Transactions,
--                   Environment, Config and Construction; `deploy`, `deterministic_deploy` and
--                   `contract_call` in Requests and the other methods for Python in Wrappers; what is
--                   shown of them in AccountLaws, SnapshotLaws, Isolation, Managed, Prepared, Reports, Funding,
--                   Errors, Refusals, RoundTrips, Environment.Fields, Config, Construction.Offline,
--                   Construction.Fork and Reaching; Steps is a relation of the requests in any
--                   order, with Steps.CodeRead
--   Tests           concrete inputs for the theorems
--
-- Numbers are natural numbers: a word of 256 bits is one below 2^256, an address is the number of its
-- bytes, and the wrap-around of `usize` is written out. A hash map is a list of its entries, the last
-- written first. Stateful code passes its state explicitly: `Exec S A` takes a state and gives the
-- outcome and the state after it, which an error or a panic keeps. Loops are structural recursion, so
-- no fuel is needed: the loop of `exp_overflow` counts down the exponent, that of `step` the number of
-- inputs, and that of the AND arm the 31 masks.
--
-- Parameters, with what is assumed of them where a theorem needs it: the node (`Remote`), which
-- answers the same request in the same way; the Redis client, which reads back the value last set
-- under a key; the files of the machine, where different paths of plain names are different files and a
-- write that fails may leave a part of the text; the printers and parsers of cache entries, addresses, numbers and ids, where a parser
-- reads what its printer wrote; the bytes of big integers, most significant first and without leading
-- zeros; Keccak, of which only the hash of no bytes is fixed; `i256_cmp`, which compares as signed;
-- and `transact_commit` of revm, which may do anything to the state, or where it is said so changes
-- the inspectors by their hooks alone, or the database by its operations alone.
--
-- Not modelled: the flags of `CfgEnv`, which only revm reads; `block_on`, which only waits; the
-- printers `__str__`, Debug and Display and the derived Clone, which only format or copy; and
-- `enable_tracing` and the registration of the Python module, which set up logging and name classes.
pub mod Prelude
pub mod Words
pub mod External
pub mod Common
pub mod Instrument
pub mod ChainInspector
pub mod Cache
pub mod ForkProvider
pub mod ForkDb
pub mod Response
pub mod TinyEvm
pub mod Tests
