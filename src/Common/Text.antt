-- ===== src/Common/Text.antt =====
-- src/common.rs: `trim_prefix`.
use Prim.Native.Char.{code}
use tevm.Prelude.{ℕ, ◌≡◌, refl, ◌-◌, Bool, true, false, ◌&&◌, ◌==◌, leb, String, if◌then◌else◌}

-- the upper case of an ASCII character, by its code
unfoldable pub upper : ℕ → ℕ
upper c = if leb 97 c && leb c 122 then c - 32 else c

-- `data.to_uppercase().starts_with(&prefix.to_uppercase())`, for the ASCII prefixes that the
-- program has: no further character has one of their upper case letters.
unfoldable pub starts_with_upper : String → String → Bool
unfolding upper
starts_with_upper text String.[] = true
starts_with_upper String.[] (String.◌∷◌ c prefix) = false
starts_with_upper (String.◌∷◌ d text) (String.◌∷◌ c prefix) =
    upper (code d) == upper (code c) && starts_with_upper text prefix

-- `&data[2..]`, where the first two characters are ASCII
unfoldable pub drop_two : String → String
drop_two (String.◌∷◌ _ (String.◌∷◌ _ rest)) = rest
drop_two text = text

unfoldable pub trim_prefix : String → String → String
unfolding starts_with_upper drop_two
trim_prefix text prefix = if starts_with_upper text prefix then drop_two text else text

trimmed : trim_prefix "0X1f" "0x" ≡ "1f"
unfolding trim_prefix
trimmed = refl

untrimmed : trim_prefix "1f" "0x" ≡ "1f"
unfolding trim_prefix
untrimmed = refl
