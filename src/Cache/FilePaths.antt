-- ===== src/Cache/FilePaths.antt =====
-- src/cache/filesystem_cache.rs: the paths of requests, and the files at them.
use Prim.Native.Char.{Char, code}
use tevm.Cache.{Request}
use tevm.Cache.FileSystem.{
  FileSystem, append, dir_path, entry_path, is_absolute, is_open, join_path, slashed,
}
use tevm.Prelude.{
  ℕ, ◌≡◌, ◌≢◌, refl, ap, sym, ◌∙◌, Bool, true, false, not, ◌&&◌, ◌==◌, String, arith, Bool-cases,
  inl, inr,
}
use tevm.Prelude.Outcome.{ok, panic}

unfoldable pub slash_free : String → Bool
slash_free String.[] = true
slash_free (String.◌∷◌ c text) = not (code c == 47) && slash_free text

-- One name in a path: not empty, without a separator, and not beginning with a dot.
unfoldable pub is_name : String → Bool
unfolding slash_free
is_name String.[] = false
is_name (String.◌∷◌ c text) = not (code c == 46) && slash_free (String.◌∷◌ c text)

slash_free-closed :
    (c : Char) (text : String)
    → slash_free (String.◌∷◌ c text) ≡ true
    → is_open (String.◌∷◌ c text) ≡ false
unfolding slash_free is_open
slash_free-closed c String.[] h = ground (arith, h)
slash_free-closed c (String.◌∷◌ d text) h = slash_free-closed d text (ground (arith, h))

is_name-closed : (s : String) → is_name s ≡ true → is_open s ≡ false
unfolding is_name
is_name-closed String.[] h = cc
is_name-closed (String.◌∷◌ c text) h = slash_free-closed c text (ground (arith, h))

is_name-slash_free : (s : String) → is_name s ≡ true → slash_free s ≡ true
unfolding is_name
is_name-slash_free String.[] h = cc
is_name-slash_free (String.◌∷◌ c text) h = ground (arith, h)

is_name-relative : (s : String) → is_name s ≡ true → is_absolute s ≡ false
unfolding is_name slash_free is_absolute
is_name-relative String.[] h = cc
is_name-relative (String.◌∷◌ c text) h = ground (arith, h)

open_tail :
    (c d : Char) (text : String)
    → is_open (String.◌∷◌ c (String.◌∷◌ d text)) ≡ is_open (String.◌∷◌ d text)
unfolding is_open
open_tail c d text = refl

-- A path to which a closed text was added is closed.
slashed-closed : (base s : String) → is_open s ≡ false → is_open (slashed base s) ≡ false
unfolding slashed is_open
slashed-closed String.[] String.[] h = cc
slashed-closed String.[] (String.◌∷◌ d s) h = open_tail "/" d s ∙ h
slashed-closed (String.◌∷◌ c String.[]) s h = open_tail c "/" s ∙ slashed-closed String.[] s h
slashed-closed (String.◌∷◌ c (String.◌∷◌ d base)) s h =
    open_tail c d (slashed base s) ∙ slashed-closed (String.◌∷◌ d base) s h

append-closed : (base s : String) → is_open s ≡ false → is_open (append base s) ≡ false
unfolding append is_open
append-closed String.[] s h = h
append-closed (String.◌∷◌ c String.[]) String.[] h = cc
append-closed (String.◌∷◌ c String.[]) (String.◌∷◌ d s) h = open_tail c d s ∙ h
append-closed (String.◌∷◌ c (String.◌∷◌ d base)) s h =
    open_tail c d (append base s) ∙ append-closed (String.◌∷◌ d base) s h

join_path-slashed :
    (base part : String)
    → is_open base ≡ false
    → is_name part ≡ true
    → join_path base part ≡ slashed base part
unfolding join_path
join_path-slashed base part closed name = ground (arith, closed, is_name-relative part name)

-- the directory of the cache
abbrev root : String → String
root home = join_path home ".tinyevm"

hidden-closed : is_open ".tinyevm" ≡ false
unfolding is_open
hidden-closed = refl

root-closed : (home : String) → is_open (root home) ≡ false
unfolding join_path is_absolute
root-closed home = elim (Bool-cases (is_open home)) [
  | inl ends ↦ ground (arith, ends, append-closed home ".tinyevm" hidden-closed)
  | inr closed ↦ ground (arith, closed, slashed-closed home ".tinyevm" hidden-closed)
]

slashed_assoc : (a b c : String) → slashed (slashed a b) c ≡ slashed a (slashed b c)
unfolding slashed
slashed_assoc String.[] b c = refl
slashed_assoc (String.◌∷◌ d a) b c = ap (String.◌∷◌ d) (slashed_assoc a b c)

first_of : String → Char
first_of String.[] = "/"
first_of (String.◌∷◌ c _) = c

rest_of : String → String
rest_of String.[] = String.[]
rest_of (String.◌∷◌ _ text) = text

slashed_cancel : (a x y : String) → slashed a x ≡ slashed a y → x ≡ y
unfolding slashed rest_of
slashed_cancel String.[] x y e = ap rest_of e
slashed_cancel (String.◌∷◌ c a) x y e = slashed_cancel a x y (ap rest_of e)

slashed-injective :
    (a b x y : String)
    → slash_free a ≡ true
    → slash_free b ≡ true
    → slashed a x ≡ slashed b y
    → (a ≡ b) × (x ≡ y)
unfolding slashed slash_free first_of rest_of
slashed-injective String.[] String.[] x y ha hb e = (refl, ap rest_of e)
slashed-injective String.[] (String.◌∷◌ d b) x y ha hb e =
    absurd (ground (arith, hb, ap (λ s. code (first_of s)) e))
slashed-injective (String.◌∷◌ c a) String.[] x y ha hb e =
    absurd (ground (arith, ha, ap (λ s. code (first_of s)) e))
slashed-injective (String.◌∷◌ c a) (String.◌∷◌ d b) x y ha hb e =
    let (same, rest) =
      slashed-injective a b x y (ground (arith, ha)) (ground (arith, hb)) (ap rest_of e) in
    ((λ i. String.◌∷◌ (first_of (e i)) (same i)), rest)

-- Requests whose parts are names, as those of src/fork_provider.rs: the chain "eth", the name of a
-- method, and hexadecimal digits and dashes.
abbrev pub IsNamed : Request → Type 0
IsNamed r = (is_name r.chain ≡ true) × (is_name r.api ≡ true) × (is_name r.request_hash ≡ true)

-- What is assumed of the files: a text that was written whole to a created file is read back; two
-- different paths of named requests below one home are two files, and creating directories touches
-- none; no read panics; and a decimal number is a name, and printed for one number.
pub record KeepsFiles (fs : FileSystem) : Type 0 where
  pub read-write_all :
      (path v : String) (f : fs.Files) {f1 f2 : fs.Files}
      → fs.create path f ≡ (ok tt, f1)
      → fs.write_all path v f1 ≡ (ok tt, f2)
      → fs.read_to_string path f2 ≡ ok v
  pub read-create_dir_all :
      (home : String) (r q : Request) (f : fs.Files)
      → IsNamed r
      → IsNamed q
      → fs.read_to_string (entry_path fs home q) (fs.create_dir_all (dir_path fs home r) f).1
        ≡ fs.read_to_string (entry_path fs home q) f
  pub read-create_ne :
      (home : String) (r q : Request) (f : fs.Files)
      → IsNamed r
      → IsNamed q
      → entry_path fs home r ≢ entry_path fs home q
      → fs.read_to_string (entry_path fs home q) (fs.create (entry_path fs home r) f).1
        ≡ fs.read_to_string (entry_path fs home q) f
  pub read-write_all_ne :
      (home : String) (r q : Request) (v : String) (f : fs.Files)
      → IsNamed r
      → IsNamed q
      → entry_path fs home r ≢ entry_path fs home q
      → fs.read_to_string (entry_path fs home q) (fs.write_all (entry_path fs home r) v f).1
        ≡ fs.read_to_string (entry_path fs home q) f
  pub read-ne-panic : (path : String) (f : fs.Files) → fs.read_to_string path f ≢ panic
  pub decimal_name : (b : ℕ) → is_name (fs.decimal b) ≡ true
  pub one_number : (b c : ℕ) → fs.decimal b ≡ fs.decimal c → b ≡ c

module _ (fs : FileSystem) (law : KeepsFiles fs) where
  abbrev parts : String → Request → String
  parts home r =
      slashed (root home)
        (slashed r.chain (slashed (fs.decimal r.block) (slashed r.api r.request_hash)))

  entry_path-parts : (home : String) (r : Request) → IsNamed r → entry_path fs home r ≡ parts home r
  unfolding entry_path dir_path
  entry_path-parts home r (chain, api, hash) =
      let a = root home in
      let number = fs.decimal r.block in
      let b = slashed a r.chain in
      let c = slashed b number in
      let d = slashed c r.api in
      let b_closed = slashed-closed a r.chain (is_name-closed r.chain chain) in
      let c_closed = slashed-closed b number (is_name-closed number (law.decimal_name r.block)) in
      let d_closed = slashed-closed c r.api (is_name-closed r.api api) in
      let to_b : join_path a r.chain ≡ b = join_path-slashed a r.chain (root-closed home) chain in
      let to_c : join_path b number ≡ c =
        join_path-slashed b number b_closed (law.decimal_name r.block) in
      let to_d : join_path c r.api ≡ d = join_path-slashed c r.api c_closed api in
      let to_e : join_path d r.request_hash ≡ slashed d r.request_hash =
        join_path-slashed d r.request_hash d_closed hash in
      ap (λ x. join_path (join_path (join_path x number) r.api) r.request_hash) to_b
      ∙ ap (λ x. join_path (join_path x r.api) r.request_hash) to_c
      ∙ ap (λ x. join_path x r.request_hash) to_d
      ∙ to_e
      ∙ slashed_assoc c r.api r.request_hash
      ∙ slashed_assoc b number (slashed r.api r.request_hash)
      ∙ slashed_assoc a r.chain (slashed number (slashed r.api r.request_hash))

  pub entry_path-injective :
      (home : String) (r q : Request)
      → IsNamed r
      → IsNamed q
      → entry_path fs home r ≡ entry_path fs home q
      → r ≡ q
  entry_path-injective home r q hr hq e =
      let flat : parts home r ≡ parts home q =
        sym (entry_path-parts home r hr) ∙ e ∙ entry_path-parts home q hq in
      let (chain, e1) =
        slashed-injective r.chain q.chain _ _ (is_name-slash_free r.chain hr.0)
          (is_name-slash_free q.chain hq.0) (slashed_cancel (root home) _ _ flat) in
      let (block, e2) =
        slashed-injective (fs.decimal r.block) (fs.decimal q.block) _ _
          (is_name-slash_free (fs.decimal r.block) (law.decimal_name r.block))
          (is_name-slash_free (fs.decimal q.block) (law.decimal_name q.block)) e1 in
      let (api, hash) =
        slashed-injective r.api q.api _ _ (is_name-slash_free r.api hr.1)
          (is_name-slash_free q.api hq.1) e2 in
      λ i. record {
        chain = chain i;
        block = law.one_number r.block q.block block i;
        api = api i;
        request_hash = hash i;
      }
