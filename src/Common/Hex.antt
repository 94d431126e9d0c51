-- ===== src/Common/Hex.antt =====
-- src/common.rs: `decode_hex_str` and `fn_sig_to_prefix`.
use Prim.Native.Char.{code}
use tevm.Common.Text.{drop_two}
use tevm.External.{Externals}
use tevm.External.Printers.{Printers, PrintsBack}
use tevm.Prelude.{
  ℕ, zero, suc, ◌+◌, ◌/◌, ◌%◌, ◌≡◌, Bool, true, false, ◌&&◌, ◌||◌, ◌==◌, ltb, List, [], ◌∷◌, ◌++◌,
  String, if◌then◌else◌,
}
use tevm.Prelude.Outcome.{Outcome, ok}
use tevm.Prelude.Texts.{with_0x}

-- `str::is_empty` and `str::starts_with`
unfoldable pub is_empty : String → Bool
is_empty String.[] = true
is_empty (String.◌∷◌ _ _) = false

unfoldable pub starts_with : String → String → Bool
starts_with text String.[] = true
starts_with String.[] (String.◌∷◌ c prefix) = false
starts_with (String.◌∷◌ d text) (String.◌∷◌ c prefix) = code d == code c && starts_with text prefix

-- `str::as_bytes`: UTF-8
unfoldable pub utf8 : ℕ → List ℕ
utf8 c =
    if ltb c 0x80
    then c ∷ []
    else if ltb c 0x800
    then (0xc0 + c / 64) ∷ (0x80 + c % 64) ∷ []
    else if ltb c 0x10000
    then (0xe0 + c / 4096) ∷ (0x80 + c / 64 % 64) ∷ (0x80 + c % 64) ∷ []
    else (0xf0 + c / 262144) ∷ (0x80 + c / 4096 % 64) ∷ (0x80 + c / 64 % 64) ∷ (0x80 + c % 64) ∷ []

unfoldable pub as_bytes : String → List ℕ
unfolding utf8
as_bytes String.[] = []
as_bytes (String.◌∷◌ c text) = utf8 (code c) ++ as_bytes text

-- `[..8]` on text of one byte for each character, which hexadecimal digits are
unfoldable pub take_text : ℕ → String → String
take_text zero text = String.[]
take_text (suc k) String.[] = String.[]
take_text (suc k) (String.◌∷◌ c text) = String.◌∷◌ c (take_text k text)

module _ (ext : Externals) (p : Printers) where
  unfoldable pub fn_sig_to_prefix : String → String
  fn_sig_to_prefix fn_sig =
      take_text 8 (p.hex_encode (ext.word_bytes (ext.keccak256 (as_bytes fn_sig))))

module _ (p : Printers) where
  unfoldable pub decode_hex_str : String → Outcome (List ℕ)
  unfolding is_empty starts_with
  decode_hex_str text =
      if is_empty text
      then ok []
      else if starts_with text "0x" || starts_with text "0X"
      then p.hex_decode (drop_two text)
      else p.hex_decode text

-- The program's own hexadecimal text, with the prefix "0x", is decoded to the bytes that it was
-- printed from.
pub decode_hex_str-with_0x :
    (ext : Externals) (p : Printers) (bytes : List ℕ)
    → PrintsBack ext p
    → decode_hex_str p (with_0x (p.hex_encode bytes)) ≡ ok bytes
unfolding decode_hex_str with_0x drop_two
decode_hex_str-with_0x ext p bytes law = law.hex bytes
