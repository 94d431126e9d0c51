-- ===== src/Instrument/BugInspector/Checks.antt =====
-- src/instrument/bug_inspector.rs: the arms of `step_end` that report a signal about arithmetic,
-- a storage access or an environment dependency.
use tevm.External.{OpCode, Externals}
use tevm.Instrument.Bug
use tevm.Instrument.Bug.{BugType}
use tevm.Instrument.BugInspector.{BugInspector, add_bug}
use tevm.Instrument.BugInspector.Arith.{mul_overflow, exp_overflow, possible_truncation}
use tevm.Prelude.{ℕ, Bool, List, ◌∷◌, ◌||◌, Option, none, some, get_elem?, ◌==◌, ltb, if◌then◌else◌}
use tevm.Prelude.Outcome.{Outcome, ok, and_then}

-- `if let (Some(a), Some(b)) = (inputs.first(), inputs.get(1))`
abbrev pub first_two : List ℕ → Option (ℕ × ℕ)
first_two (a ∷ b ∷ _) = some (a, b)
first_two _ = none

module _ (ext : Externals) (op : OpCode) (address_index : ℕ) where
  -- `Bug::new(bug_type, op.get(), pc, address_index)` and `add_bug`
  unfoldable pub report : BugType → BugInspector → BugInspector
  unfolding add_bug
  report bug_type s = add_bug (Bug.new_bug bug_type (ext.opcode_get op) s.pc address_index) s

  unfoldable pub report_if : Bool → BugType → BugInspector → BugInspector
  unfolding report
  report_if found bug_type s = if found then report bug_type s else s

  -- ADD: the result is below an operand. `top` is `interp.stack().peek(0)`.
  unfoldable pub end_add : Option ℕ → BugInspector → BugInspector
  unfolding report_if
  end_add none s = s
  end_add (some r) s = elim (first_two s.inputs) [
    | none ↦ s
    | some (a, b) ↦ report_if (ltb r a || ltb r b) BugType.integer_overflow s
  ]

  unfoldable pub end_mul : BugInspector → BugInspector
  unfolding report_if mul_overflow
  end_mul s = elim (first_two s.inputs) [
    | none ↦ s
    | some (a, b) ↦ report_if (mul_overflow a b) BugType.integer_overflow s
  ]

  unfoldable pub end_sub : BugInspector → BugInspector
  unfolding report_if
  end_sub s = elim (first_two s.inputs) [
    | none ↦ s
    | some (a, b) ↦ report_if (ltb a b) BugType.integer_sub_underflow s
  ]

  -- SMOD and MOD
  unfoldable pub end_mod : BugInspector → BugInspector
  unfolding report_if
  end_mod s = elim (get_elem? s.inputs 1) [
    | none ↦ s
    | some b ↦ report_if (b == 0) BugType.integer_mod_by_zero s
  ]

  -- DIV and SDIV
  unfoldable pub end_div : BugInspector → BugInspector
  unfolding report_if
  end_div s = elim (get_elem? s.inputs 1) [
    | none ↦ s
    | some b ↦ report_if (b == 0) BugType.integer_div_by_zero s
  ]

  -- ADDMOD and MULMOD
  unfoldable pub end_addmod : BugInspector → BugInspector
  unfolding report_if
  end_addmod s = elim (get_elem? s.inputs 2) [
    | none ↦ s
    | some n ↦ report_if (n == 0) BugType.integer_mod_by_zero s
  ]

  unfoldable pub end_exp : Option ℕ → BugInspector → Outcome BugInspector
  unfolding report_if
  end_exp none s = ok s
  end_exp (some r) s = elim (first_two s.inputs) [
    | none ↦ ok s
    | some (a, b) ↦
        and_then (exp_overflow a b r) λ found. ok (report_if found BugType.integer_overflow s)
  ]

  unfoldable pub end_and : BugInspector → BugInspector
  unfolding report_if possible_truncation
  end_and s = elim (first_two s.inputs) [
    | none ↦ s
    | some (a, b) ↦ report_if (possible_truncation a b) BugType.possible_integer_truncation s
  ]

  unfoldable pub end_sstore : BugInspector → BugInspector
  unfolding report
  end_sstore s = elim (first_two s.inputs) [
    | none ↦ s
    | some (key, value) ↦ report (BugType.sstore key value) s
  ]

  unfoldable pub end_sload : BugInspector → BugInspector
  unfolding report
  end_sload s = elim (get_elem? s.inputs 0) [ none ↦ s | some key ↦ report (BugType.sload key) s ]
