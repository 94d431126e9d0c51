-- ===== src/Prelude/Outcome.antt =====
-- How a Rust call ends: a value, an `eyre` error, or a panic; and stateful calls that keep what
-- was written before they failed.
use mathlib.Core.Option.{Option, none, some}
use mathlib.Core.Path.{◌≡◌, refl, sym, ap}
use Prim.Native.Nat.{ℕ}

-- The errors that the code makes, and `foreign` for one that a called library reports.
pub data Error : Type 0 where
  no_block_id block_missing no_provider account_missing no_snapshot : Error
  account_not_found unknown_field bigint_negative bigint_too_large : Error
  no_home io_failed invalid_address : Error
  address_collision : ℕ → Error
  foreign : ℕ → Error

pub data Outcome {ℓ} (A : Type ℓ) : Type ℓ where
  ok : A → Outcome A
  err : Error → Outcome A
  panic : Outcome A

-- `?` on a pure result
abbrev pub and_then {ℓ κ} : {A : Type ℓ} {B : Type κ} → Outcome A → (A → Outcome B) → Outcome B
and_then (ok a) f = f a
and_then (err e) f = err e
and_then panic f = panic

-- `.unwrap()` and `.expect(..)` on a result
abbrev pub unwrap {ℓ} : {A : Type ℓ} → Outcome A → Outcome A
unwrap (ok a) = ok a
unwrap (err _) = panic
unwrap panic = panic

-- `.context(..)` on an option
abbrev pub context {ℓ} : {A : Type ℓ} → Option A → Error → Outcome A
context none e = err e
context (some a) _ = ok a

abbrev pub Exec : Type 0 → Type 0 → Type 0
Exec S A = S → Outcome A × S

module _ {S A : Type 0} where
  abbrev pub pure : A → Exec S A
  pure a s = (ok a, s)

  abbrev pub raise : Error → Exec S A
  raise e s = (err e, s)

  abbrev pub lift : Outcome A → Exec S A
  lift r s = (r, s)

  abbrev pub gets : (S → A) → Exec S A
  gets f s = (ok (f s), s)

abbrev pub modify : {S : Type 0} → (S → S) → Exec S (Unit {0})
modify f s = (ok tt, f s)

abbrev pub continue : {S A B : Type 0} → Outcome A → (A → Exec S B) → Exec S B
continue (ok a) f s = f a s
continue (err e) f s = (err e, s)
continue panic f s = (panic, s)

infixl 5 ◌>>=◌ ◌>>◌
abbrev pub ◌>>=◌ : {S A B : Type 0} → Exec S A → (A → Exec S B) → Exec S B
◌>>=◌ m f s = let (r, s') = m s in continue r f s'

abbrev pub ◌>>◌ : {S A B : Type 0} → Exec S A → Exec S B → Exec S B
m >> k = m >>= λ _. k

pub and_then-eq-ok {ℓ κ} :
    {A : Type ℓ} {B : Type κ} (m : Outcome A) (f : A → Outcome B) {b : B}
    → and_then m f ≡ ok b
    → (a : A) × (m ≡ ok a) × (f a ≡ ok b)
and_then-eq-ok (ok a) f h = (a, refl, h)
and_then-eq-ok (err e) f h = cc
and_then-eq-ok panic f h = cc

pub ok-injective {ℓ} : {A : Type ℓ} {a b : A} → ok a ≡ ok b → a ≡ b
ok-injective h = cc

pub data Ended {ℓ} {A : Type ℓ} (r : Outcome A) : Type ℓ where
  returned : (a : A) → r ≡ ok a → Ended r
  failed : (e : Error) → r ≡ err e → Ended r
  panicked : r ≡ panic → Ended r

-- To split on how a call ended, and keep the equation.
pub Outcome-cases {ℓ} : {A : Type ℓ} (r : Outcome A) → Ended r
Outcome-cases (ok a) = returned a refl
Outcome-cases (err e) = failed e refl
Outcome-cases panic = panicked refl

pub ok≢err {ℓ} : {A : Type ℓ} {a : A} {e : Error} → ok a ≡ err e → ⊥
ok≢err h = cc

pub ok≢panic {ℓ} : {A : Type ℓ} {a : A} → ok a ≡ panic → ⊥
ok≢panic h = cc

module _ {S A B : Type 0} where
  pub continue-eq-ok :
      (r : Outcome A) (f : A → Exec S B) (s : S) {b : B} {s' : S}
      → continue r f s ≡ (ok b, s')
      → (a : A) × (r ≡ ok a) × (f a s ≡ (ok b, s'))
  continue-eq-ok (ok a) f s h = (a, refl, h)
  continue-eq-ok (err e) f s h = absurd (ok≢err (sym (ap (λ p. p.0) h)))
  continue-eq-ok panic f s h = absurd (ok≢panic (sym (ap (λ p. p.0) h)))

  -- Inversion of a successful bind, with the state between.
  pub >>=-eq-ok :
      (m : Exec S A) (f : A → Exec S B) (s : S) {b : B} {s' : S}
      → (m >>= f) s ≡ (ok b, s')
      → (a : A) × (t : S) × (m s ≡ (ok a, t)) × (f a t ≡ (ok b, s'))
  >>=-eq-ok m f s h =
      let (a, e, k) = continue-eq-ok (m s).0 f (m s).1 h in (a, (m s).1, (λ i. (e i, (m s).1)), k)

module _ {S : Type 0} (P : S → Type 0) where
  -- What holds before the rest of a bind and is kept by it holds after it, however it ends.
  pub continue_keeps :
      {A B : Type 0} (r : Outcome A) (f : A → Exec S B) (s : S)
      → P s
      → ((a : A) → P s → P (f a s).1)
      → P (continue r f s).1
  continue_keeps (ok a) f s holds rest = rest a holds
  continue_keeps (err e) f s holds rest = holds
  continue_keeps panic f s holds rest = holds

  pub >>=_keeps :
      {A B : Type 0} (m : Exec S A) (f : A → Exec S B) (s : S)
      → P (m s).1
      → ((a : A) (s' : S) → P s' → P (f a s').1)
      → P ((m >>= f) s).1
  >>=_keeps m f s first rest =
      continue_keeps (m s).0 f (m s).1 first (λ a holds. rest a (m s).1 holds)
