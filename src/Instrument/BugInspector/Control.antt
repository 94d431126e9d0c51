-- ===== src/Instrument/BugInspector/Control.antt =====
-- src/instrument/bug_inspector.rs: the arms of `step_end` for calls, conditional jumps, contract
-- creation and hashing.
use tevm.External.{OpCode, Externals, Interpreter}
use tevm.Instrument.Bug
use tevm.Instrument.Bug.{BugType}
use tevm.Instrument.BugInspector.{BugInspector, possibly_if_equal, record_seen_address}
use tevm.Instrument.BugInspector.Checks.{first_two, report}
use tevm.Instrument.BugInspector.Distance.{set_distance}
use tevm.Prelude.{
  ℕ, ◌+◌, ◌-◌, ◌%◌, ◌^◌, Bool, true, false, not, ◌||◌, List, Option, none, some, get_elem?, take,
  drop, length, ◌==◌, ltb, leb, if◌then◌else◌,
}
use tevm.Prelude.Outcome.{Outcome, ok, panic, and_then}
use tevm.Words.{u256_max, try_usize, low_address}

abbrev pub is_call_with_value : OpCode → Bool
is_call_with_value OpCode.call = true
is_call_with_value OpCode.callcode = true
is_call_with_value _ = false

-- `U256::MAX` with bit 31 cleared
abbrev pub half : ℕ
half = u256_max - 2 ^ 31

-- the distance that the JUMPI arm sets for a peephole optimised `if (a == b)`
unfoldable pub peephole_distance : ℕ → ℕ
peephole_distance cond = if ltb half cond then u256_max - cond + 1 else cond

module _ (ext : Externals) (op : OpCode) (address_index : ℕ) where
  -- CALL, CALLCODE, DELEGATECALL and STATICCALL
  unfoldable pub end_call : BugInspector → Outcome BugInspector
  unfolding report try_usize low_address
  end_call s = elim (get_elem? s.inputs (if is_call_with_value op then 4 else 3)) [
    | none ↦ ok s
    | some in_len ↦ elim (get_elem? s.inputs 1) [
      | none ↦ ok s
      | some callee ↦
          and_then (try_usize in_len)
            λ n. ok (report ext op address_index (BugType.call n (low_address callee)) s)
    ]
  ]

  -- the macro `update_heuritics`, with `address` that of the running contract
  unfoldable pub update_heuristics : ℕ → ℕ → Bool → BugInspector → BugInspector
  unfolding Bug.record_missed_branch report
  update_heuristics address dest_pc cond s =
      if not s.instrument_config.record_branch_for_target_only
        || address == s.instrument_config.target_address
      then report ext op address_index (BugType.jumpi (if cond then dest_pc else s.pc + 1))
          (record s {
            heuristics = Bug.record_missed_branch s.pc dest_pc cond address_index s.heuristics;
          })
      else s

  -- JUMPI, in the contract at `address`
  unfoldable pub end_jumpi : ℕ → BugInspector → Outcome BugInspector
  unfolding update_heuristics peephole_distance possibly_if_equal try_usize
  end_jumpi address s = elim (first_two s.inputs) [
    | none ↦ ok s
    | some (counter, cond) ↦ and_then (try_usize counter) λ dest. ok (
        update_heuristics address dest (not (cond == 0))
          (if possibly_if_equal s then set_distance (peephole_distance cond) s else s))
  ]

  -- SELFDESTRUCT, CREATE and CREATE2
  unfoldable pub end_create : Bool → Option ℕ → BugInspector → BugInspector
  unfolding report record_seen_address low_address
  end_create creates top s =
      let s' = report ext op address_index BugType.unclassified s in
      if creates
      then elim top [ none ↦ s' | some created ↦ (record_seen_address (low_address created) s').1 ]
      else s'

-- `&memory[offset..offset + size]`, which panics past the end
unfoldable pub slice : List ℕ → ℕ → ℕ → Outcome (List ℕ)
slice memory offset size =
    if leb (offset + size) (length memory) then ok (take size (drop offset memory)) else panic

unfoldable pub last_32 : List ℕ → List ℕ
last_32 input = if ltb 32 (length input) then drop (length input - 32) input else input

-- the three values that the KECCAK256 arm reads
abbrev offset_size_output : BugInspector → Interpreter → Option (ℕ × ℕ × ℕ)
offset_size_output s interp = elim (first_two s.inputs) [
  | none ↦ none
  | some (offset, size) ↦ elim (get_elem? interp.stack 0) [
    | none ↦ none
    | some output ↦ some (offset, size, output)
  ]
]

unfoldable pub end_keccak256 : Interpreter → BugInspector → Outcome BugInspector
unfolding Bug.record_sha3_mapping slice last_32
end_keccak256 interp s =
    if s.instrument_config.record_sha3_mapping
    then elim (offset_size_output s interp) [
      | none ↦ ok s
      | some (offset, size, output) ↦
          and_then (slice interp.memory (offset % 2 ^ 64) (size % 2 ^ 64)) λ input.
            ok (record s {
              heuristics = Bug.record_sha3_mapping (last_32 input) output s.heuristics;
            })
    ]
    else ok s
