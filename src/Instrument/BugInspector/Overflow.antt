-- ===== src/Instrument/BugInspector/Overflow.antt =====
-- src/instrument/bug_inspector.rs: the overflow tests and the search for a mask, against the
-- arithmetic that they stand for.
use native.Mathlib.Nat.{
  div-lt_iff_lt-mul, pow-succ', pow-zero, one-le-pow, mul_assoc, mul-one, one-mul, mul-le-mul_left,
  mod-eq_of_lt,
}
use mathlib.Core.Path.{subst}
use native.Mathlib.Decide.{ℕ_discrete}
use tevm.Instrument.BugInspector.Arith.{
  mul_overflow, exp_loop, exp_overflow, low_mask, truncation_loop, possible_truncation,
}
use tevm.Prelude.{
  ℕ, zero, suc, ◌+◌, ◌-◌, ◌*◌, ◌/◌, ◌^◌, ◌≤◌, ◌<◌, ◌≡◌, sym, ap, refl, ◌∙◌, Bool, true, not, ◌&&◌,
  ◌||◌, ◌⊎◌, ◌↔◌, arith, ◌==◌, ltb, Bool-cases, inl, inr,
}
use tevm.Prelude.Outcome.{ok, panic}
use tevm.Words.{u256_max, u256_size}

-- The test by division agrees with the product taken without wrap-around, zero operands included.
pub mul_overflow-eq-product : (a b : ℕ) → mul_overflow a b ≡ ltb u256_max (a * b)
unfolding mul_overflow
mul_overflow-eq-product zero b = ground arith
mul_overflow-eq-product (suc a) zero = ground arith
mul_overflow-eq-product (suc a) (suc b) =
    ground (arith, div-lt_iff_lt-mul {k = suc b} {x = u256_max} {y = suc a} (omega arith))

product-pow : (a n x : ℕ) → x * a ^ suc n ≡ x * a * a ^ n
product-pow a n x = rw pow-succ' (sym (mul_assoc x a (a ^ n)))

le-product-pow : (a n x : ℕ) → 0 < a → x ≤ x * a ^ n
le-product-pow a n x p =
    subst (λ y. y ≤ x * a ^ n) (mul-one x) (mul-le-mul_left x (one-le-pow n a p))

-- The loop with `result` so far and `n` rounds left, for a base of one or more.
exp_loop_lem :
    (n a result r : ℕ)
    → 0 < a
    → result ≤ u256_max
    → exp_loop n a result r ≡ ok (ltb u256_max (result * a ^ n) || not (result * a ^ n == r))
unfolding exp_loop
exp_loop_lem zero a result r p h = rw (pow-zero, mul-one) (ground arith)
exp_loop_lem (suc n) a result r p h = elim (Bool-cases (ltb (u256_max / a) result)) [
  | inl over ↦ ground (
    arith,
    product-pow a n result,
    le-product-pow a n (result * a) p,
    div-lt_iff_lt-mul {k = a} {x = u256_max} {y = result} p,
  )
  | inr fits ↦
      let small : result * a ≤ u256_max =
        grind (arith, div-lt_iff_lt-mul {k = a} {x = u256_max} {y = result} p) in
      ground (
        arith,
        product-pow a n result,
        exp_loop_lem n a (result * a) r p small,
        mod-eq_of_lt {n = result * a} {m = u256_size},
      )
]

-- For a base of one or more the test says whether the power, taken without wrap-around, exceeds
-- the word or differs from the result `r` that the machine computed.
pub exp_overflow-eq-power :
    (a b r : ℕ) → 0 < a → exp_overflow a b r ≡ ok (ltb u256_max (a ^ b) || not (a ^ b == r))
unfolding exp_overflow
exp_overflow-eq-power a zero r p = rw pow-zero (ground arith)
exp_overflow-eq-power a (suc b) r p =
    rw (exp_loop_lem (suc b) a 1 r p (omega arith)) (rw one-mul (ground arith))

-- On a zero base with a nonzero exponent the division `max_value / a` panics.
pub exp_overflow-zero_base : (b r : ℕ) → 0 < b → exp_overflow 0 b r ≡ panic
unfolding exp_overflow
exp_overflow-zero_base zero r h = absurd (omega arith)
exp_overflow-zero_base (suc b) r h = ground arith

-- The mask of the round `i` of the truncation search is the largest number of 32 - i bytes.
abbrev TruncatedBy : ℕ → ℕ → ℕ → ℕ → ℕ → Type 0
TruncatedBy i n a b j =
    (i ≤ j) × (j < i + n) × ((low_mask j ≡ a) × (a < b) ⊎ (low_mask j ≡ b) × (b < a))

truncation_loop_sound :
    (n i a b : ℕ) → truncation_loop n i a b ≡ true → (j : ℕ) × TruncatedBy i n a b j
unfolding truncation_loop
truncation_loop_sound zero i a b h = cc
truncation_loop_sound (suc n) i a b h = elim (Bool-cases (low_mask i == a && ltb a b)) [
  | inl p ↦ (i, (omega arith, omega arith, inl (ground arith)))
  | inr q ↦ elim (Bool-cases (low_mask i == b && ltb b a)) [
    | inl p ↦ (i, (omega arith, omega arith, inr (ground arith)))
    | inr r ↦
        let found = truncation_loop_sound n (i + 1) a b (rw (q, r) at h) in
        (found.0, (omega (arith, found.1), omega (arith, found.1), found.1.2))
  ]
]

truncation_loop_complete : (n i a b j : ℕ) → TruncatedBy i n a b j → truncation_loop n i a b ≡ true
unfolding truncation_loop
truncation_loop_complete zero i a b j (lo, hi, m) = absurd (omega arith)
truncation_loop_complete (suc n) i a b j (lo, hi, m) = elim (ℕ_discrete i j) [
  | yes e ↦ ground arith
  | no e ↦ ground (arith, truncation_loop_complete n (i + 1) a b j (omega arith, omega arith, m))
]

-- a test of all numbers below a bound
abbrev all_below : ℕ → (ℕ → Bool) → Bool
all_below zero f = true
all_below (suc n) f = f n && all_below n f

all_below-at : (n k : ℕ) (f : ℕ → Bool) → all_below n f ≡ true → k < n → f k ≡ true
all_below-at zero k f h lt = absurd (omega arith)
all_below-at (suc n) k f h lt = elim (ℕ_discrete k n) [
  | yes e ↦ rw e (ground (arith, h))
  | no ne ↦ all_below-at n k f (ground (arith, h)) (omega arith)
]

-- the largest number of so many bytes
abbrev byte_mask : ℕ → ℕ
byte_mask k = 2 ^ (8 * k) - 1

abbrev is_mask : ℕ → Bool
is_mask j = low_mask j == byte_mask (32 - j)

masks : all_below 32 is_mask ≡ true
unfolding low_mask
masks = refl

low_mask-byte_mask : (j : ℕ) → j < 32 → low_mask j ≡ byte_mask (32 - j)
low_mask-byte_mask j lt = ground (arith, all_below-at 32 j is_mask masks lt)

mask_of_bytes : (k : ℕ) → 1 ≤ k → k < 32 → low_mask (32 - k) ≡ byte_mask k
mask_of_bytes k lo hi = low_mask-byte_mask (32 - k) (omega arith) ∙ ap byte_mask (omega arith)

-- The signal of the AND arm: for some number `k` of bytes from 1 to 31, one operand is the mask
-- 2^(8k) - 1, and the other operand is larger.
pub possible_truncation_iff :
    (a b : ℕ)
    → (possible_truncation a b ≡ true) ↔ (
        (k : ℕ) × (1 ≤ k)
        × (k < 32)
        × ((2 ^ (8 * k) - 1 ≡ a) × (a < b) ⊎ (2 ^ (8 * k) - 1 ≡ b) × (b < a)))
unfolding possible_truncation
possible_truncation_iff a b = (
  λ h.
      let (j, (lo, hi, m)) = truncation_loop_sound 31 1 a b h in
      (
        32 - j,
        omega arith,
        omega arith,
        subst (λ x. (x ≡ a) × (a < b) ⊎ (x ≡ b) × (b < a)) (low_mask-byte_mask j (omega arith)) m,
      ),
  λ found.
      let (k, lo, hi, m) = found in
      truncation_loop_complete 31 1 a b (32 - k) (
        omega arith,
        omega arith,
        subst (λ x. (x ≡ a) × (a < b) ⊎ (x ≡ b) × (b < a)) (sym (mask_of_bytes k lo hi)) m,
      ),
)
