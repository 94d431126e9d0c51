-- ===== src/Tests/Libraries.antt =====
-- Concrete conversions of numbers and texts for the tests: digits by division, and hexadecimal
-- text that counts in strokes.
use Prim.Native.Char.{code}
use Prim.Native.Nat.pow
use mathlib.Core.Path.{subst}
use tevm.Common.BigInts.{length-reversed, All-reversed}
use tevm.External.Execution.{success, revert, halt}
use tevm.External.Numbers.{
  BigInt, Sign, Numbers, IsByte, CountsBytes, le_value, reversed, be_value, minus, pos, negsuc,
}
use tevm.External.Printers.{Printers, KeepsAddresses, PrintsBack, ReadsResults}
use tevm.Prelude.{
  ℕ, zero, suc, ◌+◌, ◌/◌, ◌%◌, ◌^◌, ◌≤◌, ◌<◌, ◌≡◌, refl, ap, ◌∙◌, List, [], ◌∷◌, String, Option,
  none, some, true, false, push, length, All, ltb, ◌==◌, arith, Bool-cases, ltb-false→le, inl, inr,
  if◌then◌else◌,
}
use tevm.Prelude.Outcome.{ok, panic}
use tevm.Tests.{ext}

-- the lowest digits of a number, as many as asked for
unfoldable pub le_fixed : ℕ → ℕ → List ℕ
le_fixed zero u = []
le_fixed (suc k) u = u % 256 ∷ le_fixed k (u / 256)

-- its digits up to the highest that is not zero
unfoldable pub le_digits : ℕ → ℕ → List ℕ
le_digits zero u = u ∷ []
le_digits (suc fuel) u =
    let rest = le_digits fuel (u / 256) in if ltb u 256 then u ∷ [] else u % 256 ∷ rest

le_value-le_fixed : (k u : ℕ) → u < 256 ^ k → le_value (le_fixed k u) ≡ u
unfolding le_value le_fixed
le_value-le_fixed zero u h = omega arith
le_value-le_fixed (suc k) u h =
    omega (arith, pow.suc 256 k, le_value-le_fixed k (u / 256) (omega (arith, h, pow.suc 256 k)))

length-le_fixed : (k u : ℕ) → length (le_fixed k u) ≡ k
unfolding le_fixed
length-le_fixed zero u = refl
length-le_fixed (suc k) u = omega (arith, length-le_fixed k (u / 256))

le_value-le_digits : (fuel u : ℕ) → u ≤ fuel → le_value (le_digits fuel u) ≡ u
unfolding le_value le_digits
le_value-le_digits zero u h = omega arith
le_value-le_digits (suc fuel) u h = elim (Bool-cases (ltb u 256)) [
  | inl small ↦ ground (arith, small)
  | inr large ↦
      ground
        (arith, large, le_value-le_digits fuel (u / 256) (omega (arith, ltb-false→le u 256 large)))
]

le_digits-IsByte : (fuel u : ℕ) → u ≤ fuel → All IsByte (le_digits fuel u)
unfolding le_digits
le_digits-IsByte zero u h = (omega arith, tt)
le_digits-IsByte (suc fuel) u h = elim (Bool-cases (ltb u 256)) [
  | inl small ↦ ground (arith, small)
  | inr large ↦
      ground
        (arith, large, le_digits-IsByte fuel (u / 256) (omega (arith, ltb-false→le u 256 large)))
]

reversed-push : (xs : List ℕ) (b : ℕ) → reversed (push xs b) ≡ b ∷ reversed xs
unfolding reversed
reversed-push [] b = refl
reversed-push (c ∷ xs) b = ap (λ ys. push ys c) (reversed-push xs b)

reversed_twice : (xs : List ℕ) → reversed (reversed xs) ≡ xs
unfolding reversed
reversed_twice [] = refl
reversed_twice (b ∷ xs) = reversed-push (reversed xs) b ∙ ap (λ ys. b ∷ ys) (reversed_twice xs)

-- a list that starts with a digit that is not zero
abbrev Leads : List ℕ → Type 0
Leads [] = ⊥
Leads (d ∷ _) = 0 < d

Leads-push : (xs : List ℕ) (b : ℕ) → Leads xs → Leads (push xs b)
Leads-push [] b h = absurd h
Leads-push (d ∷ xs) b h = h

le_digits-Leads : (fuel u : ℕ) → 0 < u → u ≤ fuel → Leads (reversed (le_digits fuel u))
unfolding reversed le_digits
le_digits-Leads zero u h k = h
le_digits-Leads (suc fuel) u h k = elim (Bool-cases (ltb u 256)) [
  | inl small ↦ rw small h
  | inr large ↦
      let big = ltb-false→le u 256 large in
      rw large (
        Leads-push _ (u % 256)
          (le_digits-Leads fuel (u / 256) (omega (arith, big)) (omega (arith, big))))
]

first_digit : (u d e : ℕ) (rest : List ℕ) → reversed (le_digits u u) ≡ d ∷ e ∷ rest → 0 < d
unfolding reversed le_digits
first_digit zero d e rest h = cc
first_digit (suc u) d e rest h =
    subst Leads h (le_digits-Leads (suc u) (suc u) (omega arith) (omega arith))

abbrev pub numbers : Numbers
numbers = record {
  from_bytes_le = λ s bytes. elim s [
    | minus ↦ BigInt.negsuc (le_value bytes)
    | _ ↦ BigInt.pos (le_value bytes)
  ];
  to_bytes_be = λ b. elim b [
    | negsuc k ↦ (Sign.minus, reversed (le_digits (suc k) (suc k)))
    | pos k ↦ (if k == 0 then Sign.no_sign else Sign.plus, reversed (le_digits k k))
  ];
  as_le_bytes = λ u. le_fixed 32 u;
  default_bigint = BigInt.pos 0;
  from_be_slice = λ bytes. if ltb 32 (length bytes) then panic else ok (be_value bytes);
}

pub numbers-CountsBytes : CountsBytes numbers
numbers-CountsBytes = record {
  le = λ u h. le_value-le_fixed 32 u (omega (arith, h));
  from_le = λ bytes. refl;
  below = λ k. refl;
  not_below = λ k h. ground (arith, h);
  value = λ k. ap le_value (reversed_twice (le_digits k k)) ∙ le_value-le_digits k k (omega arith);
  bytes = λ k. All-reversed _ (le_digits-IsByte k k (omega arith));
  no_zero_first = λ k d e rest h. first_digit k d e rest h;
  from_be = λ s bytes h. ground (arith, h);
}

-- so many strokes, and a stop
abbrev pub strokes : ℕ → String → String
strokes zero s = String.◌∷◌ "." s
strokes (suc k) s = String.◌∷◌ "1" (strokes k s)

abbrev pub all_strokes : List ℕ → String
all_strokes [] = String.[]
all_strokes (k ∷ ks) = strokes k (all_strokes ks)

abbrev pub counted : ℕ → String → List ℕ
counted k String.[] = []
counted k (String.◌∷◌ c s) =
    let stopped = counted 0 s in
    let running = counted (k + 1) s in if code c == 46 then k ∷ stopped else running

pub counted-strokes : (k n : ℕ) (s : String) → counted k (strokes n s) ≡ (k + n) ∷ counted 0 s
counted-strokes k zero s = ground arith
counted-strokes k (suc n) s = ground (arith, counted-strokes (k + 1) n s)

counted-all_strokes : (ks : List ℕ) → counted 0 (all_strokes ks) ≡ ks
counted-all_strokes [] = refl
counted-all_strokes (k ∷ ks) =
    ground (arith, counted-strokes 0 k (all_strokes ks), counted-all_strokes ks)

abbrev pub head_of : List ℕ → Option ℕ
head_of [] = none
head_of (k ∷ _) = some k

abbrev pub printers : Printers
printers = record {
  hex_encode = all_strokes;
  hex_decode = λ s. ok (counted 0 s);
  to_string = λ k. strokes k String.[];
  address_bytes = λ a. reversed (le_fixed 20 a);
  address_from_slice = λ bytes. if length bytes == 20 then ok (be_value bytes) else panic;
  lower_hex_address = λ a. strokes a String.[];
  lower_hex_word = λ w. strokes w String.[];
  debug_reason = λ _. "CreateCollision";
  debug_status = λ _. "Stop";
  debug_error = λ _. "Some(Transaction)";
  is_success = λ r. elim r [ success _ _ ↦ true | _ ↦ false ];
  gas_used = λ r. elim r [ success gas _ ↦ gas | revert gas _ ↦ gas | halt gas _ ↦ gas ];
}

address_value : (a : ℕ) → a < 2 ^ 160 → be_value (reversed (le_fixed 20 a)) ≡ a
address_value a h =
    ap le_value (reversed_twice (le_fixed 20 a)) ∙ le_value-le_fixed 20 a (omega (arith, h))

pub printers-KeepsAddresses : KeepsAddresses printers
printers-KeepsAddresses = record {
  value = λ a h. address_value a h;
  from_slice = λ a h.
      ground (arith, address_value a h, length-reversed (le_fixed 20 a), length-le_fixed 20 a);
  no_error = λ bytes e h. ground (arith, h);
}

word_value : (w : ℕ) → be_value (w ∷ []) ≡ w
unfolding le_value reversed
word_value w = omega arith

pub printers-PrintsBack : PrintsBack ext printers
printers-PrintsBack = record {
  hex = λ bytes. ap (λ xs. ok xs) (counted-all_strokes bytes);
  word = λ w h. word_value w;
  from_decimal = λ s. head_of (counted 0 s);
  decimal = λ k. ground (arith, counted-strokes 0 k String.[]);
}

pub printers-ReadsResults : ReadsResults printers
printers-ReadsResults = record {
  success_yes = λ _ _. refl;
  revert_no = λ _ _. refl;
  halt_no = λ _ _. refl;
  success_gas = λ _ _. refl;
  revert_gas = λ _ _. refl;
  halt_gas = λ _ _. refl;
}
