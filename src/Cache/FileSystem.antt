-- ===== src/Cache/FileSystem.antt =====
-- src/cache/filesystem_cache.rs: one file for each request, below `$HOME/.tinyevm`. The files of the
-- machine are a parameter.
use Prim.Native.Char.{code}
use tevm.Cache.{Request, ProviderCache}
use tevm.Prelude.{ℕ, Bool, true, false, Option, none, some, String, ◌==◌, if◌then◌else◌}
use tevm.Prelude.Outcome.{Outcome, err, Exec, no_home, ◌>>◌}

-- What the cache calls of `std::fs` and `std::io::Write`: `create_dir_all`, `File::create`, which
-- truncates the file, `write_all` to a file that was created, and `read_to_string`.
pub record FileSystem : Type 1 where
  pub Files : Type 0
  pub create_dir_all : String → Exec Files (Unit {0})
  pub create : String → Exec Files (Unit {0})
  pub write_all : String → String → Exec Files (Unit {0})
  pub read_to_string : String → Files → Outcome String
  -- `u64::to_string`
  pub decimal : ℕ → String

-- `Path::join`, on Unix: an absolute path replaces the base, and a separator is put in between unless
-- the base is empty or ends with one.
unfoldable pub is_absolute : String → Bool
is_absolute String.[] = false
is_absolute (String.◌∷◌ c _) = code c == 47

unfoldable pub is_open : String → Bool
is_open String.[] = true
is_open (String.◌∷◌ c String.[]) = code c == 47
is_open (String.◌∷◌ c (String.◌∷◌ d path)) = is_open (String.◌∷◌ d path)

-- two texts in a row, and two with a separator in between
unfoldable pub append : String → String → String
append String.[] part = part
append (String.◌∷◌ c base) part = String.◌∷◌ c (append base part)

unfoldable pub slashed : String → String → String
slashed String.[] part = String.◌∷◌ "/" part
slashed (String.◌∷◌ c base) part = String.◌∷◌ c (slashed base part)

unfoldable pub join_path : String → String → String
join_path base part =
    if is_absolute part then part else if is_open base then append base part else slashed base part

-- The variable `HOME`, which the cache reads and nothing writes, and the files.
pub record Disk (fs : FileSystem) : Type 0 where
  pub home : Option String
  pub files : fs.Files

module _ (fs : FileSystem) where
  -- the directory of an entry, and the entry
  unfoldable pub dir_path : String → Request → String
  dir_path home r =
      join_path (join_path (join_path (join_path home ".tinyevm") r.chain) (fs.decimal r.block))
        r.api

  unfoldable pub entry_path : String → Request → String
  entry_path home r = join_path (dir_path home r) r.request_hash

  -- the calls of `store`, once `HOME` is read
  unfoldable pub write_entry : String → Request → String → Exec fs.Files (Unit {0})
  write_entry home r response = do
    fs.create_dir_all (dir_path home r)
    fs.create (entry_path home r)
    fs.write_all (entry_path home r) response

  unfoldable pub store : Request → String → Exec (Disk fs) (Unit {0})
  store r response disk = elim disk.home [
    | none ↦ (err no_home, disk)
    | some home ↦
        let (result, files') = write_entry home r response disk.files in
        (result, record disk { files = files' })
  ]

  unfoldable pub get : Request → Disk fs → Outcome String
  get r disk = elim disk.home [
    | none ↦ err no_home
    | some home ↦ fs.read_to_string (entry_path home r) disk.files
  ]

  abbrev pub file_system_cache : ProviderCache
  file_system_cache = record { Store = Disk fs; store = store; get = get }
