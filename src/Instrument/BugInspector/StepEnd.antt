-- ===== src/Instrument/BugInspector/StepEnd.antt =====
-- src/instrument/bug_inspector.rs: the hook `step_end`, which runs after an instruction.
use tevm.External.{OpCode, Externals, Interpreter}
use tevm.Instrument.Bug.{BugType}
use tevm.Instrument.BugInspector.{BugInspector, enabled, record_seen_address, record_pc}
use tevm.Instrument.BugInspector.Checks.{
  report, end_add, end_mul, end_sub, end_mod, end_div, end_addmod, end_exp, end_and, end_sstore,
  end_sload,
}
use tevm.Instrument.BugInspector.Control.{end_call, end_jumpi, end_create, end_keccak256}
use tevm.Instrument.BugInspector.Distance.{end_lt, end_gt, end_slt, end_sgt, end_eq}
use tevm.Prelude.{ℕ, true, false, Option, none, some, get_elem?, if◌then◌else◌}
use tevm.Prelude.Outcome.{Outcome, ok}

module _ (ext : Externals) where
  abbrev signal : OpCode → ℕ → BugType → BugInspector → Outcome BugInspector
  signal op i bug_type s = ok (report ext op i bug_type s)

  abbrev top : Interpreter → Option ℕ
  top interp = get_elem? interp.stack 0

  -- `match opcode`, with the index of the running contract
  unfoldable pub dispatch : Option OpCode → Interpreter → ℕ → BugInspector → Outcome BugInspector
  dispatch (some OpCode.add) interp i s = ok (end_add ext OpCode.add i (top interp) s)
  dispatch (some OpCode.mul) interp i s = ok (end_mul ext OpCode.mul i s)
  dispatch (some OpCode.sub) interp i s = ok (end_sub ext OpCode.sub i s)
  dispatch (some OpCode.smod) interp i s = ok (end_mod ext OpCode.smod i s)
  dispatch (some OpCode.modulo) interp i s = ok (end_mod ext OpCode.modulo i s)
  dispatch (some OpCode.div) interp i s = ok (end_div ext OpCode.div i s)
  dispatch (some OpCode.sdiv) interp i s = ok (end_div ext OpCode.sdiv i s)
  dispatch (some OpCode.addmod) interp i s = ok (end_addmod ext OpCode.addmod i s)
  dispatch (some OpCode.mulmod) interp i s = ok (end_addmod ext OpCode.mulmod i s)
  dispatch (some OpCode.exp) interp i s = end_exp ext OpCode.exp i (top interp) s
  dispatch (some OpCode.lt) interp i s = ok (end_lt s)
  dispatch (some OpCode.gt) interp i s = ok (end_gt s)
  dispatch (some OpCode.slt) interp i s = ok (end_slt (top interp) s)
  dispatch (some OpCode.sgt) interp i s = ok (end_sgt ext (top interp) s)
  dispatch (some OpCode.eq) interp i s = ok (end_eq (top interp) s)
  dispatch (some OpCode.and) interp i s = ok (end_and ext OpCode.and i s)
  dispatch (some OpCode.sstore) interp i s = ok (end_sstore ext OpCode.sstore i s)
  dispatch (some OpCode.sload) interp i s = ok (end_sload ext OpCode.sload i s)
  dispatch (some OpCode.origin) interp i s = signal OpCode.origin i BugType.tx_origin_dependency s
  dispatch (some OpCode.call) interp i s = end_call ext OpCode.call i s
  dispatch (some OpCode.callcode) interp i s = end_call ext OpCode.callcode i s
  dispatch (some OpCode.delegatecall) interp i s = end_call ext OpCode.delegatecall i s
  dispatch (some OpCode.staticcall) interp i s = end_call ext OpCode.staticcall i s
  dispatch (some OpCode.jumpi) interp i s = end_jumpi ext OpCode.jumpi i interp.target_address s
  dispatch (some OpCode.blobhash) interp i s =
      signal OpCode.blobhash i BugType.block_value_dependency s
  dispatch (some OpCode.coinbase) interp i s =
      signal OpCode.coinbase i BugType.block_value_dependency s
  dispatch (some OpCode.timestamp) interp i s =
      signal OpCode.timestamp i BugType.timestamp_dependency s
  dispatch (some OpCode.number) interp i s =
      signal OpCode.number i BugType.block_number_dependency s
  dispatch (some OpCode.difficulty) interp i s =
      signal OpCode.difficulty i BugType.block_value_dependency s
  dispatch (some OpCode.revert) interp i s = signal OpCode.revert i BugType.revert_or_invalid s
  dispatch (some OpCode.invalid) interp i s = signal OpCode.invalid i BugType.revert_or_invalid s
  dispatch (some OpCode.selfdestruct) interp i s =
      ok (end_create ext OpCode.selfdestruct i false (top interp) s)
  dispatch (some OpCode.create) interp i s = ok (end_create ext OpCode.create i true (top interp) s)
  dispatch (some OpCode.create2) interp i s =
      ok (end_create ext OpCode.create2 i true (top interp) s)
  dispatch (some OpCode.keccak256) interp i s = end_keccak256 interp s
  dispatch (some (OpCode.other _)) interp i s = ok s
  dispatch none interp i s = ok s

  -- what `step_end` does before the `match`: the index of the contract, and the state
  unfoldable pub arrive : Interpreter → BugInspector → ℕ × BugInspector
  unfolding record_seen_address record_pc
  arrive interp s =
      let (i, s') = record_seen_address interp.target_address s in
      (
        i,
        if s'.instrument_config.pcs_by_address then record_pc interp.target_address s.pc s' else s',
      )

  unfoldable pub step_end : Interpreter → BugInspector → Outcome BugInspector
  unfolding dispatch arrive
  step_end interp s =
      if enabled s then (let (i, s') = arrive interp s in dispatch s.opcode interp i s') else ok s
