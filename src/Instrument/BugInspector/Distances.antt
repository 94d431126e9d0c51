-- ===== src/Instrument/BugInspector/Distances.antt =====
-- src/instrument/bug_inspector.rs: the distances of the comparison arms and of the JUMPI arm, with
-- `i256_diff` of src/common.rs.
use tevm.Common.{i256_diff}
use tevm.External.{Externals, ComparesSigned, bias}
use tevm.Instrument.BugInspector.Control.{half, peephole_distance}
use tevm.Instrument.BugInspector.Distance.{lt_distance, gt_distance, slt_distance, eq_distance}
use Prim.Native.Nat.{min}
use tevm.Prelude.{
  ℕ, ◌+◌, ◌-◌, ◌^◌, ◌≤◌, ◌<◌, ◌≡◌, ◌≢◌, ◌↔◌, ◌⊎◌, true, false, ◌&&◌, arith, ltb, leb, ◌==◌,
  if◌then◌else◌,
}
use tevm.Words.{u256_max, u256_size}

-- The LT arm, for two words: an amount `d` is enough to change the outcome, by moving one operand
-- towards or past the other, exactly if the distance is at most `d`; except for the operands
-- 2^256 - 1 and 0 in that order, where the distance saturates.
pub lt_distance_flips :
    (a b d : ℕ)
    → a ≤ u256_max
    → b ≤ u256_max
    → a < b + u256_max
    → leb (lt_distance a b) d ≡ (if ltb a b then leb b (a + d) else ltb a (b + d))
unfolding lt_distance
lt_distance_flips a b d ha hb hs = ground arith

-- The GT arm, for two words and except where the distance saturates: the distance is at most `d`
-- exactly if moving one operand by `d` changes the outcome, for different operands. For equal
-- ones, where the outcome is false, the distance is 0, although an operand has to move by 1.
pub gt_distance_flips :
    (a b d : ℕ)
    → a ≤ u256_max
    → b ≤ u256_max
    → b < a + u256_max
    → leb (gt_distance a b) d
      ≡ (if a == b then true else if ltb b a then leb a (b + d) else ltb b (a + d))
unfolding gt_distance
gt_distance_flips a b d ha hb hs = ground arith

-- The EQ arm, for two words and their outcome: the distance is 1 for equal operands and else the
-- difference, so moving one operand by `d` changes the outcome exactly if the distance is at most
-- `d`; and it is never 0.
pub eq_distance_flips :
    (a b d : ℕ)
    → a ≤ u256_max
    → b ≤ u256_max
    → leb (eq_distance a b (if a == b then 1 else 0)) d
      ≡ (if a == b then ltb 0 d else leb a (b + d) && leb b (a + d))
unfolding eq_distance
eq_distance_flips a b d ha hb = ground arith

-- the distance of two words as two's complement integers
abbrev pub signed_distance : ℕ → ℕ → ℕ
signed_distance a b = if leb (bias a) (bias b) then bias b - bias a else bias a - bias b

-- For two words `i256_diff` is the distance of its arguments as two's complement integers, if
-- `i256_cmp` compares them as such.
pub i256_diff-signed :
    (ext : Externals) (a b : ℕ)
    → ComparesSigned ext
    → a < u256_size
    → b < u256_size
    → (i256_diff ext a b).0 ≡ signed_distance a b
unfolding i256_diff
i256_diff-signed ext a b law ha hb = ground (arith, law.signed a b)

-- The SLT arm takes the unsigned difference for a true outcome: it is the signed distance for
-- operands of one sign, and falls short of 2^256 by the signed distance for operands of two.
pub slt_distance-signed :
    (a b r : ℕ)
    → a < u256_size
    → b < u256_size
    → r ≢ 0
    → (if ltb a (2 ^ 255) then ltb b (2 ^ 255) else leb (2 ^ 255) b) ≡ true
    → slt_distance a b r ≡ signed_distance a b
unfolding slt_distance
slt_distance-signed a b r ha hb hr same = ground arith

-- For two words of two signs, and a true outcome, the distance of the SLT arm and the distance as
-- two's complement integers add up to 2^256.
pub slt_distance-two_signs :
    (a b r : ℕ)
    → a < u256_size
    → b < u256_size
    → r ≢ 0
    → (if ltb a (2 ^ 255) then ltb b (2 ^ 255) else leb (2 ^ 255) b) ≡ false
    → slt_distance a b r + signed_distance a b ≡ u256_size
unfolding slt_distance
slt_distance-two_signs a b r ha hb hr other = ground arith

-- For a word the JUMPI arm takes the smaller of the distances to 0 and to 2^256 exactly if the
-- condition is at most 2^255 or within 2^31 of the end; between these it takes the larger one.
pub peephole_distance-min :
    (cond : ℕ)
    → cond ≤ u256_max
    → (peephole_distance cond ≡ min cond (u256_size - cond)) ↔ ((cond ≤ 2 ^ 255) ⊎ (half < cond))
unfolding peephole_distance
peephole_distance-min cond h = ground arith
