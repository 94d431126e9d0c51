-- ===== src/Cache/FileEntries.antt =====
-- src/cache/filesystem_cache.rs: the entries of the file system cache.
use tevm.Cache.{Request, IsCache}
use tevm.Cache.FilePaths.{IsNamed, KeepsFiles, entry_path-injective}
use tevm.Cache.FileSystem.{
  FileSystem, Disk, dir_path, entry_path, file_system_cache, get, store, write_entry,
}
use tevm.Prelude.{◌≡◌, ◌≢◌, refl, ap, sym, ◌∙◌, some, String, arith, Option-cases, inl, inr}
use tevm.Prelude.Outcome.{ok, panic, >>=-eq-ok, >>=_keeps}

module _ (fs : FileSystem) (law : KeepsFiles fs) where
  -- an entry that was written whole is read back
  written_reads :
      (home : String) (r : Request) (v : String) (f : fs.Files) {f' : fs.Files}
      → write_entry fs home r v f ≡ (ok tt, f')
      → fs.read_to_string (entry_path fs home r) f' ≡ ok v
  unfolding write_entry
  written_reads home r v f e =
      let (_, f1, _, k1) = >>=-eq-ok (fs.create_dir_all (dir_path fs home r)) _ f e in
      let (_, f2, e2, k2) = >>=-eq-ok (fs.create (entry_path fs home r)) _ f1 k1 in
      law.read-write_all (entry_path fs home r) v f1 e2 k2

  -- writing an entry, whether it succeeds or not, touches no entry of another named request
  others_keep :
      (home : String) (r q : Request) (v : String) (f : fs.Files)
      → IsNamed r
      → IsNamed q
      → r ≢ q
      → fs.read_to_string (entry_path fs home q) (write_entry fs home r v f).1
        ≡ fs.read_to_string (entry_path fs home q) f
  unfolding write_entry
  others_keep home r q v f hr hq other =
      let p = entry_path fs home q in
      let apart : entry_path fs home r ≢ p =
        λ same. other (entry_path-injective fs law home r q hr hq same) in
      let keeps : fs.Files → Type 0 = λ g. fs.read_to_string p g ≡ fs.read_to_string p f in
      >>=_keeps keeps (fs.create_dir_all (dir_path fs home r)) _ f
        (law.read-create_dir_all home r q f hr hq)
        λ _ f1 h1.
          >>=_keeps keeps (fs.create (entry_path fs home r)) _ f1
            (law.read-create_ne home r q f1 hr hq apart ∙ h1)
            λ _ f2 h2. law.read-write_all_ne home r q v f2 hr hq apart ∙ h2

  at_home :
      (home : String) (r : Request) (disk : Disk fs)
      → disk.home ≡ some home
      → get fs r disk ≡ fs.read_to_string (entry_path fs home r) disk.files
  unfolding get
  at_home home r disk h = ground (arith, h)

  -- `store` with a home
  stored_at_home :
      (home : String) (r : Request) (v : String) (disk : Disk fs)
      → disk.home ≡ some home
      → store fs r v disk ≡ (
        (write_entry fs home r v disk.files).0,
        record disk { files = (write_entry fs home r v disk.files).1 },
      )
  unfolding store
  stored_at_home home r v disk h = rw h refl

  get-store_ok :
      (r : Request) (v : String) (disk : Disk fs)
      → (store fs r v disk).0 ≡ ok tt
      → get fs r (store fs r v disk).1 ≡ ok v
  unfolding store
  get-store_ok r v disk e = elim (Option-cases disk.home) [
    | inl nowhere ↦ absurd (ground (arith, nowhere, e))
    | inr (home, h) ↦
        let (result, f') = write_entry fs home r v disk.files in
        let after : Disk fs = record disk { files = f' } in
        let stored = stored_at_home home r v disk h in
        let done : result ≡ ok tt = sym (ap (λ x. x.0) stored) ∙ e in
        ap (λ x. get fs r x.1) stored
        ∙ at_home home r after h
        ∙ written_reads home r v disk.files (λ i. (done i, f'))
  ]

  get-store_other :
      (r q : Request) (v : String) (disk : Disk fs)
      → IsNamed r
      → IsNamed q
      → r ≢ q
      → get fs q (store fs r v disk).1 ≡ get fs q disk
  unfolding store
  get-store_other r q v disk hr hq other = elim (Option-cases disk.home) [
    | inl nowhere ↦ rw nowhere refl
    | inr (home, h) ↦
        let (result, f') = write_entry fs home r v disk.files in
        let after : Disk fs = record disk { files = f' } in
        ap (λ x. get fs q x.1) (stored_at_home home r v disk h)
        ∙ at_home home q after h
        ∙ others_keep home r q v disk.files hr hq other
        ∙ sym (at_home home q disk h)
  ]

  get_never_panics : (r : Request) (disk : Disk fs) → get fs r disk ≢ panic
  unfolding get
  get_never_panics r disk e = elim (Option-cases disk.home) [
    | inl nowhere ↦ ground (arith, nowhere, e)
    | inr (home, h) ↦
        law.read-ne-panic (entry_path fs home r) disk.files (sym (at_home home r disk h) ∙ e)
  ]

  -- The file system cache is a cache: an entry that was stored is read back, for every request;
  -- storing, whether it fails or not, touches no entry of another request, if the chain, the method
  -- and the hash of both are plain names; and a lookup does not panic. Different paths of plain
  -- names are assumed to be different files.
  pub file_system_cache-IsCache : IsCache (file_system_cache fs) IsNamed
  file_system_cache-IsCache = record {
    get-store = get-store_ok;
    get-store_ne = get-store_other;
    get-ne-panic = get_never_panics;
  }
