-- ===== src/Response/Readable.antt =====
-- src/response.rs: what `hash_map_from_bug_type` keeps of a bug type.
use tevm.Common.Text.{drop_two}
use tevm.External.{Externals}
use tevm.External.Numbers.{be_value}
use tevm.External.Printers.{Printers, PrintsBack, KeepsAddresses}
use tevm.Instrument.Bug.{BugType}
use tevm.Prelude.{
  ℕ, ◌^◌, ◌<◌, ◌≡◌, refl, ap, sym, ◌∙◌, List, Option, none, some, some_inj, String, if◌then◌else◌,
}
use tevm.Prelude.Outcome.{Outcome, ok}
use tevm.Prelude.Texts.{TextMap, get, insert, remove, with_0x}
use tevm.Response.BugTypes.{hash_map_from_bug_type, word_text, address_text}
use tevm.Words.{u256_size}
use text.Mathlib.Text.{◌==◌}

-- The numbers of a bug type are words and addresses.
abbrev pub Fits : BugType → Type 0
Fits (BugType.sload index) = index < u256_size
Fits (BugType.sstore index value) = (index < u256_size) × (value < u256_size)
Fits (BugType.call _ address) = address < 2 ^ 160
Fits _ = Unit

abbrev and_then_some {ℓ κ} : {A : Type ℓ} {B : Type κ} → Option A → (A → Option B) → Option B
and_then_some none f = none
and_then_some (some a) f = f a

abbrev pub value_of_bytes : Outcome (List ℕ) → Option ℕ
value_of_bytes (ok bytes) = some (be_value bytes)
value_of_bytes _ = none

module _ (ext : Externals) (p : Printers) (law : PrintsBack ext p) where
  unfoldable hex_of : TextMap String → String → Option ℕ
  hex_of m k = and_then_some (get m k) λ text. value_of_bytes (p.hex_decode (drop_two text))

  unfoldable number_of : TextMap String → String → Option ℕ
  number_of m k = and_then_some (get m k) law.from_decimal

  -- the bug type with a name, read from a map
  unfoldable read_named : TextMap String → String → Option BugType
  unfolding hex_of number_of
  read_named m name =
      if name == "Jumpi"
      then and_then_some (number_of m "dest") (λ dest. some (BugType.jumpi dest))
      else if name == "Sload"
      then and_then_some (hex_of m "index") (λ index. some (BugType.sload index))
      else if name == "Sstore"
      then and_then_some (hex_of m "index")
          (λ index. and_then_some (hex_of m "value") (λ value. some (BugType.sstore index value)))
      else if name == "Call"
      then and_then_some (number_of m "size")
          (λ size. and_then_some (hex_of m "dest") (λ dest. some (BugType.call size dest)))
      else if name == "IntegerOverflow"
      then some BugType.integer_overflow
      else if name == "IntegerSubUnderflow"
      then some BugType.integer_sub_underflow
      else if name == "IntegerDivByZero"
      then some BugType.integer_div_by_zero
      else if name == "IntegerModByZero"
      then some BugType.integer_mod_by_zero
      else if name == "PossibleIntegerTruncation"
      then some BugType.possible_integer_truncation
      else if name == "TimestampDependency"
      then some BugType.timestamp_dependency
      else if name == "BlockValueDependency"
      then some BugType.block_value_dependency
      else if name == "BlockNumberDependency"
      then some BugType.block_number_dependency
      else if name == "TxOriginDependency"
      then some BugType.tx_origin_dependency
      else if name == "RevertOrInvalid"
      then some BugType.revert_or_invalid
      else if name == "Unclassified"
      then some BugType.unclassified
      else none

  unfoldable read_bug_type : TextMap String → Option BugType
  unfolding read_named
  read_bug_type m = and_then_some (get m "type") (read_named m)

  hex_of_word :
      (w : ℕ)
      → w < u256_size
      → value_of_bytes (p.hex_decode (drop_two (word_text ext p w))) ≡ some w
  unfolding drop_two with_0x word_text
  hex_of_word w h = ap value_of_bytes (law.hex _) ∙ ap (λ x. some x) (law.word w h)

  pub hex_of_address :
      (a : ℕ)
      → a < 2 ^ 160
      → KeepsAddresses p
      → value_of_bytes (p.hex_decode (drop_two (address_text ext p a))) ≡ some a
  unfolding drop_two with_0x address_text
  hex_of_address a h keeps = ap value_of_bytes (law.hex _) ∙ ap (λ x. some x) (keeps.value a h)

  read-hash_map :
      (b : BugType)
      → KeepsAddresses p
      → Fits b
      → read_bug_type (hash_map_from_bug_type ext p b) ≡ some b
  unfolding hash_map_from_bug_type read_bug_type get insert remove
  read-hash_map (BugType.jumpi dest) keeps h = rw (law.decimal dest) refl
  read-hash_map (BugType.sload index) keeps h = rw (hex_of_word index h) refl
  read-hash_map (BugType.sstore index value) keeps h =
      rw (hex_of_word index h.0, hex_of_word value h.1) refl
  read-hash_map (BugType.call size dest) keeps h =
      rw (law.decimal size, hex_of_address dest h keeps) refl
  read-hash_map BugType.integer_overflow keeps h = refl
  read-hash_map BugType.integer_sub_underflow keeps h = refl
  read-hash_map BugType.integer_div_by_zero keeps h = refl
  read-hash_map BugType.integer_mod_by_zero keeps h = refl
  read-hash_map BugType.possible_integer_truncation keeps h = refl
  read-hash_map BugType.timestamp_dependency keeps h = refl
  read-hash_map BugType.block_number_dependency keeps h = refl
  read-hash_map BugType.block_value_dependency keeps h = refl
  read-hash_map BugType.tx_origin_dependency keeps h = refl
  read-hash_map BugType.revert_or_invalid keeps h = refl
  read-hash_map BugType.unclassified keeps h = refl

-- The map that Python is given determines the bug type: with printers that can be read back, two bug
-- types whose words and addresses are in range and which have the same map are the same, their
-- numbers included.
pub hash_map_from_bug_type-injective :
    (ext : Externals) (p : Printers) (b c : BugType)
    → PrintsBack ext p
    → KeepsAddresses p
    → Fits b
    → Fits c
    → hash_map_from_bug_type ext p b ≡ hash_map_from_bug_type ext p c
    → b ≡ c
hash_map_from_bug_type-injective ext p b c law keeps hb hc e = some_inj (
    sym (read-hash_map ext p law b keeps hb)
    ∙ ap (read_bug_type ext p law) e
    ∙ read-hash_map ext p law c keeps hc)
