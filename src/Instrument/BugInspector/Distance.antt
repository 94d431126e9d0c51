-- ===== src/Instrument/BugInspector/Distance.antt =====
-- src/instrument/bug_inspector.rs: the arms of `step_end` for comparisons, which set the distance
-- to the other outcome.
use tevm.External.{Externals}
use tevm.Instrument.BugInspector.{BugInspector}
use tevm.Instrument.BugInspector.Checks.{first_two}
use tevm.Prelude.{ℕ, not, Option, none, some, ◌==◌, ltb, leb, if◌then◌else◌}
use tevm.Words.{overflowing_sub, saturating_add}
use tevm.Common.{i256_diff}

abbrev pub set_distance : ℕ → BugInspector → BugInspector
set_distance distance s = record s { heuristics = record s.heuristics { distance = distance } }

-- the distance of the LT arm
unfoldable pub lt_distance : ℕ → ℕ → ℕ
unfolding overflowing_sub saturating_add
lt_distance a b =
    if leb b a then saturating_add (overflowing_sub a b).0 1 else (overflowing_sub b a).0

unfoldable pub gt_distance : ℕ → ℕ → ℕ
unfolding overflowing_sub saturating_add
gt_distance a b =
    if leb b a then (overflowing_sub a b).0 else saturating_add (overflowing_sub b a).0 1

-- The SLT arm takes the difference of the words as unsigned numbers. `r` is the result.
unfoldable pub slt_distance : ℕ → ℕ → ℕ → ℕ
unfolding overflowing_sub saturating_add
slt_distance a b r =
    let distance = if leb b a then (overflowing_sub a b).0 else (overflowing_sub b a).0 in
    if r == 0 then saturating_add distance 1 else distance

unfoldable pub eq_distance : ℕ → ℕ → ℕ → ℕ
unfolding overflowing_sub
eq_distance a b r =
    let distance = if ltb b a then (overflowing_sub a b).0 else (overflowing_sub b a).0 in
    if not (r == 0) then 1 else distance

unfoldable pub end_lt : BugInspector → BugInspector
unfolding lt_distance
end_lt s = elim (first_two s.inputs) [ none ↦ s | some (a, b) ↦ set_distance (lt_distance a b) s ]

unfoldable pub end_gt : BugInspector → BugInspector
unfolding gt_distance
end_gt s = elim (first_two s.inputs) [ none ↦ s | some (a, b) ↦ set_distance (gt_distance a b) s ]

-- `top` is `interp.stack().peek(0)`
unfoldable pub end_slt : Option ℕ → BugInspector → BugInspector
unfolding slt_distance
end_slt none s = s
end_slt (some r) s = elim (first_two s.inputs) [
  | none ↦ s
  | some (a, b) ↦ set_distance (slt_distance a b r) s
]

unfoldable pub end_eq : Option ℕ → BugInspector → BugInspector
unfolding eq_distance
end_eq none s = s
end_eq (some r) s = elim (first_two s.inputs) [
  | none ↦ s
  | some (a, b) ↦ set_distance (eq_distance a b r) s
]

module _ (ext : Externals) where
  unfoldable pub sgt_distance : ℕ → ℕ → ℕ → ℕ
  unfolding i256_diff saturating_add
  sgt_distance a b r =
      let distance = (i256_diff ext a b).0 in if r == 0 then saturating_add distance 1 else distance

  unfoldable pub end_sgt : Option ℕ → BugInspector → BugInspector
  unfolding sgt_distance
  end_sgt none s = s
  end_sgt (some r) s = elim (first_two s.inputs) [
    | none ↦ s
    | some (a, b) ↦ set_distance (sgt_distance a b r) s
  ]
