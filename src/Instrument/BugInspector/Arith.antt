-- ===== src/Instrument/BugInspector/Arith.antt =====
-- src/instrument/bug_inspector.rs: the overflow tests `mul_overflow` and `exp_overflow`, and the
-- search for a truncating mask in the `AND` arm of `step_end`.
use tevm.Prelude.{
  ℕ, zero, suc, ◌+◌, ◌*◌, ◌/◌, ◌%◌, ◌^◌, Bool, true, false, not, ◌&&◌, ◌||◌, ◌==◌, ltb,
  if◌then◌else◌,
}
use tevm.Prelude.Outcome.{Outcome, ok, panic}
use tevm.Words.{u256_max, u256_size}

unfoldable pub mul_overflow : ℕ → ℕ → Bool
mul_overflow a b = if a == 0 || b == 0 then false else ltb (u256_max / b) a

-- The `while i < b` loop of `exp_overflow`, on the number of rounds left, `b - i`. The division
-- `max_value / a` panics for `a == 0`.
unfoldable pub exp_loop : ℕ → ℕ → ℕ → ℕ → Outcome Bool
exp_loop zero a result r = ok (not (result == r))
exp_loop (suc rounds) a result r =
    let rest = exp_loop rounds a (result * a % u256_size) r in
    if a == 0 then panic else if ltb (u256_max / a) result then ok true else rest

unfoldable pub exp_overflow : ℕ → ℕ → ℕ → Outcome Bool
unfolding exp_loop
exp_overflow a b r = if b == 0 then ok (not (r == 1)) else exp_loop b a 1 r

-- `U256::MAX >> (i * 8)`
unfoldable pub low_mask : ℕ → ℕ
low_mask i = u256_max / 2 ^ (i * 8)

-- The `loop` over `i` in the `AND` arm, on the rounds left before `i == 32`.
unfoldable pub truncation_loop : ℕ → ℕ → ℕ → ℕ → Bool
unfolding low_mask
truncation_loop zero i a b = false
truncation_loop (suc rounds) i a b =
    let rest = truncation_loop rounds (i + 1) a b in
    let r = low_mask i in
    if r == a && ltb a b then true else if r == b && ltb b a then true else rest

unfoldable pub possible_truncation : ℕ → ℕ → Bool
unfolding truncation_loop
possible_truncation a b = truncation_loop 31 1 a b
