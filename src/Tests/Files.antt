-- ===== src/Tests/Files.antt =====
-- The theorem on the file system cache, at files in a list.
use tevm.Cache.{IsCache}
use tevm.Cache.FileEntries.{file_system_cache-IsCache}
use tevm.Cache.FilePaths.{IsNamed, KeepsFiles, is_name, slash_free}
use tevm.Cache.FileSystem.{entry_path, file_system_cache}
use tevm.Prelude.{ℕ, zero, suc, ◌≡◌, ◌≢◌, refl, ap, sym, ◌∙◌, true, String, arith}
use tevm.Prelude.Texts
use tevm.Prelude.Texts.{TextMap, get-insert}
use tevm.Prelude.Outcome.{ok}
use tevm.Tests.{files, tally}
use text.Mathlib.TextEquality.{eq_iff}

slash_free-tally : (b : ℕ) → slash_free (tally b) ≡ true
unfolding slash_free
slash_free-tally zero = refl
slash_free-tally (suc b) = slash_free-tally b

is_name-tally : (b : ℕ) → is_name (tally b) ≡ true
unfolding is_name slash_free
is_name-tally zero = refl
is_name-tally (suc b) = slash_free-tally b

strokes_in : String → ℕ
strokes_in String.[] = 0
strokes_in (String.◌∷◌ _ s) = suc (strokes_in s)

strokes_in-tally : (b : ℕ) → strokes_in (tally b) ≡ suc b
unfolding strokes_in
strokes_in-tally zero = refl
strokes_in-tally (suc b) = ap suc (strokes_in-tally b)

tally-injective : (b c : ℕ) → tally b ≡ tally c → b ≡ c
tally-injective b c e = omega (arith, ap strokes_in e, strokes_in-tally b, strokes_in-tally c)

inserted_reads :
    (k v : String) (f : TextMap String) → files.read_to_string k (Texts.insert k v f) ≡ ok v
inserted_reads k v f = ground (arith, get-insert k k v f, eq_iff k k)

inserted_reads_ne :
    (k j v : String) (f : TextMap String)
    → k ≢ j
    → files.read_to_string j (Texts.insert k v f) ≡ files.read_to_string j f
inserted_reads_ne k j v f other = ground (arith, get-insert k j v f, eq_iff k j, other)

pub files-KeepsFiles : KeepsFiles files
files-KeepsFiles = record {
  read-write_all = λ path v f {f1} made written.
      ap (λ x. files.read_to_string path x.1) (sym written) ∙ inserted_reads path v f1;
  read-create_dir_all = λ home r q f hr hq. refl;
  read-create_ne = λ home r q f hr hq other.
      inserted_reads_ne (entry_path files home r) (entry_path files home q) "" f other;
  read-write_all_ne = λ home r q v f hr hq other.
      inserted_reads_ne (entry_path files home r) (entry_path files home q) v f other;
  read-ne-panic = λ path f e. ground (arith, e);
  decimal_name = is_name-tally;
  one_number = tally-injective;
}

file_system_cache-IsCache_example : IsCache (file_system_cache files) IsNamed
file_system_cache-IsCache_example = file_system_cache-IsCache files files-KeepsFiles
