-- ===== src/Common/BigInts.antt =====
-- src/common.rs: the conversions between `BigInt` and `U256`.
use Prim.Native.Nat.pow
use native.Mathlib.Nat.{pow-le-pow_right}
use tevm.External.Numbers.{
  BigInt, Sign, Numbers, IsByte, CountsBytes, le_value, reversed, be_value, minus, pos, negsuc,
}
use tevm.Prelude.{
  ℕ, ◌^◌, ◌≤◌, ◌<◌, ◌≡◌, ◌≢◌, refl, ap, sym, ◌∙◌, List, [], ◌∷◌, Bool, true, false, push, length,
  length-push, All, All-push, ltb, arith, Bool-cases, ltb→lt, ltb-false→le, inl, inr, if◌then◌else◌,
}
use tevm.Prelude.Outcome.{Outcome, ok, err, bigint_negative, bigint_too_large}
use tevm.Words.{u256_size}

unfoldable pub is_minus : Sign → Bool
is_minus minus = true
is_minus _ = false

module _ (n : Numbers) where
  unfoldable pub ruint_u256_to_bigint : ℕ → BigInt
  ruint_u256_to_bigint u = n.from_bytes_le Sign.plus (n.as_le_bytes u)

  unfoldable pub bigint_to_ruint_u256 : BigInt → Outcome ℕ
  unfolding is_minus
  bigint_to_ruint_u256 b =
      let (sign, bytes) = n.to_bytes_be b in
      if is_minus sign
      then err bigint_negative
      else if ltb 32 (length bytes)
      then err bigint_too_large
      else n.from_be_slice bytes

pub length-reversed : (bytes : List ℕ) → length (reversed bytes) ≡ length bytes
unfolding reversed
length-reversed [] = refl
length-reversed (b ∷ bytes) = omega (arith, length-push (reversed bytes) b, length-reversed bytes)

pub All-reversed : (bytes : List ℕ) → All IsByte bytes → All IsByte (reversed bytes)
unfolding reversed
All-reversed [] h = tt
All-reversed (b ∷ bytes) h = All-push IsByte (reversed bytes) b (All-reversed bytes h.1) h.0

le_value-lt : (bytes : List ℕ) → All IsByte bytes → le_value bytes < 256 ^ length bytes
unfolding le_value
le_value-lt [] h = omega arith
le_value-lt (b ∷ bytes) (hb, h) = omega (arith, hb, le_value-lt bytes h, pow.suc 256 (length bytes))

le_value-push : (bytes : List ℕ) (b : ℕ) → 0 < b → 256 ^ length bytes ≤ le_value (push bytes b)
unfolding le_value
le_value-push [] b h = omega arith
le_value-push (c ∷ bytes) b h = omega (arith, le_value-push bytes b h, pow.suc 256 (length bytes))

wide_power : (k : ℕ) → 32 ≤ k → u256_size ≤ 256 ^ k
wide_power k h = let grows = pow-le-pow_right {n = 256} (omega arith) h in omega (arith, grows)

narrow_power : (k : ℕ) → k ≤ 32 → 256 ^ k ≤ u256_size
narrow_power k h = let grows = pow-le-pow_right {n = 256} (omega arith) h in omega (arith, grows)

-- Digits with none that is zero in front are at most 32 exactly when their number is a word.
wide_value :
    (bytes : List ℕ)
    → ((d e : ℕ) (rest : List ℕ) → bytes ≡ d ∷ e ∷ rest → 0 < d)
    → 32 < length bytes
    → u256_size ≤ be_value bytes
unfolding reversed
wide_value [] front h = absurd (omega arith)
wide_value (d ∷ []) front h = absurd (omega arith)
wide_value (d ∷ e ∷ rest) front h =
    let digits = le_value-push (reversed (e ∷ rest)) d (front d e rest refl) in
    let many =
      wide_power (length (reversed (e ∷ rest))) (omega (arith, length-reversed (e ∷ rest))) in
    omega (arith, digits, many)

narrow_value : (bytes : List ℕ) → All IsByte bytes → length bytes ≤ 32 → be_value bytes < u256_size
narrow_value bytes are h =
    let digits = le_value-lt (reversed bytes) (All-reversed bytes are) in
    let few = narrow_power (length (reversed bytes)) (omega (arith, length-reversed bytes)) in
    omega (arith, digits, few)

is_minus-false : (s : Sign) → s ≢ minus → is_minus s ≡ false
unfolding is_minus
is_minus-false minus h = absurd (h refl)
is_minus-false Sign.no_sign h = refl
is_minus-false Sign.plus h = refl

module _ (n : Numbers) (law : CountsBytes n) where
  -- The conversion of an integer into a word succeeds exactly for the integers from 0 to 2^256 - 1,
  -- and keeps the number. A negative integer and one of more than 256 bits each have their error,
  -- and no integer makes it panic.
  pub bigint_to_ruint_u256_exact :
      (b : BigInt)
      → bigint_to_ruint_u256 n b ≡ (elim b [
        | negsuc _ ↦ err bigint_negative
        | pos k ↦ if ltb k u256_size then ok k else err bigint_too_large
      ])
  unfolding bigint_to_ruint_u256
  bigint_to_ruint_u256_exact (negsuc k) = rw (law.below k) refl
  bigint_to_ruint_u256_exact (pos k) =
      let bytes = (n.to_bytes_be (pos k)).1 in
      let unsigned = is_minus-false _ (law.not_below k) in
      elim (Bool-cases (ltb 32 (length bytes))) [
        | inl wide ↦
            let big = wide_value bytes (law.no_zero_first k) (ltb→lt _ _ wide) in
            ground (arith, unsigned, wide, big, law.value k)
        | inr narrow ↦
            let short = ltb-false→le _ _ narrow in
            let small = narrow_value bytes (law.bytes k) short in
            ground
              (arith, unsigned, narrow, small, law.value k, law.from_be bytes (law.bytes k) short)
      ]

  -- A word is the same after a conversion into an integer and back.
  pub ruint_u256_to_bigint-back :
      (u : ℕ) → u < u256_size → bigint_to_ruint_u256 n (ruint_u256_to_bigint n u) ≡ ok u
  unfolding ruint_u256_to_bigint
  ruint_u256_to_bigint-back u h =
      rw (law.from_le (n.as_le_bytes u), law.le u h)
        (rw (bigint_to_ruint_u256_exact (pos u)) (ground (arith, h)))

  -- an integer that was converted is the word that it became
  pub bigint_to_ruint_u256-ok :
      (b : BigInt) {u : ℕ} → bigint_to_ruint_u256 n b ≡ ok u → ruint_u256_to_bigint n u ≡ b
  unfolding ruint_u256_to_bigint
  bigint_to_ruint_u256-ok (negsuc k) e =
      absurd (ground (arith, sym (bigint_to_ruint_u256_exact (negsuc k)) ∙ e))
  bigint_to_ruint_u256-ok (pos k) {u} e =
      let exact = sym (bigint_to_ruint_u256_exact (pos k)) ∙ e in
      let small : k < u256_size = ground (arith, exact) in
      let same : k ≡ u = ground (arith, exact) in
      law.from_le (n.as_le_bytes u)
      ∙ ap pos (ap (λ x. le_value (n.as_le_bytes x)) (sym same) ∙ law.le k small)
