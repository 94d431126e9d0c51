-- ===== src/TinyEvm/SnapshotLaws.antt =====
-- src/lib.rs: taking a snapshot and restoring it.
use tevm.External.Parsers.{Parsers}
use tevm.ForkDb.{Context, DbAccount, ForkDb}
use tevm.ForkDb.Accounts.{set_account}
use tevm.Prelude.{
  ℕ, ◌≡◌, refl, ap, ◌∙◌, Bool, true, false, none, some, String, arith, ◌==◌, if◌then◌else◌,
}
use tevm.Prelude.Maps
use tevm.Prelude.Maps.{get-insert, get-remove}
use tevm.Prelude.Outcome.{ok, err, no_snapshot}
use tevm.TinyEvm.{TinyEvm, db_mut}
use tevm.TinyEvm.Snapshots.{
  take_snapshot, restore_snapshot, take_global_snapshot, restore_global_snapshot,
}

module _ (cx : Context) (parsers : Parsers) where
  -- what `restore_snapshot` does when there is a snapshot
  restore_found :
      (text : String) (a : ℕ) (t : TinyEvm cx) {account : DbAccount}
      → parsers.address_from_str text ≡ ok a
      → Maps.get t.snapshots a ≡ some account
      → restore_snapshot cx parsers text t
        ≡ (ok tt, record t { db = set_account cx.ext a account t.db })
  unfolding restore_snapshot db_mut
  restore_found text a t parsed found = rw (parsed, found) refl

  -- what `take_snapshot` does when there is an account
  take_found :
      (text : String) (a : ℕ) (t : TinyEvm cx) {account : DbAccount}
      → parsers.address_from_str text ≡ ok a
      → Maps.get t.db.accounts a ≡ some account
      → take_snapshot cx parsers text t
        ≡ (ok tt, record t { snapshots = Maps.insert a account t.snapshots })
  unfolding take_snapshot
  take_found text a t parsed held = rw (parsed, held) refl

  restore_global_found :
      (text : String) (id : ℕ) (keep : Bool) (t : TinyEvm cx) {snapshot : ForkDb}
      → parsers.uuid_parse_str text ≡ ok id
      → Maps.get t.global_snapshot id ≡ some snapshot
      → restore_global_snapshot cx parsers text keep t ≡ (
        ok tt,
        record t {
          db = snapshot;
          global_snapshot = if keep then t.global_snapshot else Maps.remove id t.global_snapshot;
        },
      )
  unfolding restore_global_snapshot db_mut
  restore_global_found text id true t parsed found = rw (parsed, found) refl
  restore_global_found text id false t parsed found = rw (parsed, found) refl

  restore_global_absent :
      (text : String) (id : ℕ) (keep : Bool) (t : TinyEvm cx)
      → parsers.uuid_parse_str text ≡ ok id
      → Maps.get t.global_snapshot id ≡ none
      → restore_global_snapshot cx parsers text keep t ≡ (err no_snapshot, t)
  unfolding restore_global_snapshot
  restore_global_absent text id keep t parsed absent = rw (parsed, absent) refl

  global_taken :
      (id : ℕ) (t : TinyEvm cx)
      → Maps.get (take_global_snapshot cx parsers id t).1.global_snapshot id ≡ some t.db
  unfolding take_global_snapshot
  global_taken id t = ground (arith, get-insert id id t.db t.global_snapshot)

  restored_again :
      (text : String) (id : ℕ) (keep : Bool) (t later : TinyEvm cx)
      → parsers.uuid_parse_str text ≡ ok id
      → Maps.get later.global_snapshot id ≡ some t.db
      → (restore_global_snapshot cx parsers text keep (record later {
        db = t.db;
        global_snapshot =
            if keep then later.global_snapshot else Maps.remove id later.global_snapshot;
      })).0
        ≡ (if keep then ok tt else err no_snapshot)
  restored_again text id true t later parsed found =
      ap (λ r. r.0) (restore_global_found text id true (record later { db = t.db }) parsed found)
  restored_again text id false t later parsed found =
      let t' : TinyEvm cx = record later {
        db = t.db;
        global_snapshot = Maps.remove id later.global_snapshot;
      } in
      ap (λ r. r.0)
        (restore_global_absent text id false t' parsed
          (ground (arith, get-remove id id later.global_snapshot)))

  -- A snapshot of an account that the database holds, by a text that parses to its address, can
  -- be taken. Restored at any later state that still has the snapshots, whatever was done to the
  -- database between, it puts the account back as it was when the snapshot was taken, and changes
  -- no other account.
  pub take_snapshot-restore :
      (text : String) (a : ℕ) (t later : TinyEvm cx) (j : ℕ) {account : DbAccount}
      → parsers.address_from_str text ≡ ok a
      → Maps.get t.db.accounts a ≡ some account
      → later.snapshots ≡ (take_snapshot cx parsers text t).1.snapshots
      → ((take_snapshot cx parsers text t).0 ≡ ok tt)
        × ((restore_snapshot cx parsers text later).0 ≡ ok tt)
        × (Maps.get (restore_snapshot cx parsers text later).1.db.accounts j
            ≡ (if a == j then Maps.get t.db.accounts a else Maps.get later.db.accounts j))
  take_snapshot-restore text a t later j {account} parsed held kept =
      let taken = take_found text a t parsed held in
      let found : Maps.get later.snapshots a ≡ some account =
        ap (λ m. Maps.get m a) kept
        ∙ ap (λ r. Maps.get r.1.snapshots a) taken
        ∙ ground (arith, get-insert a a account t.snapshots) in
      let restored = restore_found text a later parsed found in
      (
        ap (λ r. r.0) taken,
        ap (λ r. r.0) restored,
        ap (λ r. Maps.get r.1.db.accounts j) restored
            ∙ ground (arith, held, get-insert a j account later.db.accounts),
      )

  -- A snapshot of the whole database, restored by a text that parses to its id, at any later
  -- state that still has the snapshots, brings the database back. The snapshot is there for
  -- another restoration exactly when it was to be kept.
  pub take_global_snapshot-restore :
      (id : ℕ) (text : String) (keep : Bool) (t later : TinyEvm cx)
      → parsers.uuid_parse_str text ≡ ok id
      → later.global_snapshot ≡ (take_global_snapshot cx parsers id t).1.global_snapshot
      → let r = restore_global_snapshot cx parsers text keep later in
        (r.0 ≡ ok tt)
        × (r.1.db ≡ t.db)
        × ((restore_global_snapshot cx parsers text keep r.1).0
            ≡ (if keep then ok tt else err no_snapshot))
  take_global_snapshot-restore id text keep t later parsed kept =
      let found : Maps.get later.global_snapshot id ≡ some t.db =
        ap (λ m. Maps.get m id) kept ∙ global_taken id t in
      let restored = restore_global_found text id keep later parsed found in
      (
        ap (λ r. r.0) restored,
        ap (λ r. r.1.db) restored,
        ap (λ r. (restore_global_snapshot cx parsers text keep r.1).0) restored
            ∙ restored_again text id keep t later parsed found,
      )
