-- ===== src/Instrument/Bug/Missed.antt =====
-- The missed branches of src/instrument/bug.rs, `record_missed_branch`.
use tevm.Instrument.Bug.{
  Heuristics, MissedBranch, new_missed_branch, same_branch, record_missed_branch,
}
use tevm.Prelude.{
  ℕ, ◌≡◌, Bool, true, false, List, [], ◌∷◌, ◌||◌, arith, push, any, Bool-cases, inl, inr,
}

-- whether a branch with the same ends and distance is in the list
abbrev pub holds : MissedBranch → List MissedBranch → Bool
holds x = any (same_branch x.prev_pc x.dest_pc x.distance)

-- No two entries have the same ends and distance.
abbrev pub IsDistinct : List MissedBranch → Type 0
IsDistinct [] = Unit
IsDistinct (x ∷ xs) = (holds x xs ≡ false) × IsDistinct xs

same_branch_symm :
    (x y : MissedBranch)
    → same_branch x.prev_pc x.dest_pc x.distance y ≡ same_branch y.prev_pc y.dest_pc y.distance x
unfolding same_branch
same_branch_symm x y = ground arith

any-push :
    (p : MissedBranch → Bool) (xs : List MissedBranch) (y : MissedBranch)
    → any p (push xs y) ≡ any p xs || p y
unfolding any
any-push p [] y = ground arith
any-push p (x ∷ xs) y = ground (arith, any-push p xs y)

IsDistinct-push :
    (xs : List MissedBranch) (y : MissedBranch)
    → IsDistinct xs
    → holds y xs ≡ false
    → IsDistinct (push xs y)
unfolding any
IsDistinct-push [] y d h = ground arith
IsDistinct-push (x ∷ xs) y d h = ground (
  arith,
  IsDistinct-push xs y d.1,
  any-push (same_branch x.prev_pc x.dest_pc x.distance) xs y,
  same_branch_symm x y,
)

holds-push : (xs : List MissedBranch) (y : MissedBranch) → holds y (push xs y) ≡ true
unfolding same_branch
holds-push xs y = ground (arith, any-push (same_branch y.prev_pc y.dest_pc y.distance) xs y)

-- Recording a branch keeps a list free of entries with the same ends and distance free of them,
-- and leaves an entry for this branch at the current distance.
pub record_missed_branch-IsDistinct :
    (prev_pc dest_pc : ℕ) (cond : Bool) (address_index : ℕ) (h : Heuristics)
    → IsDistinct h.missed_branches
    → let branch = new_missed_branch prev_pc dest_pc cond h.distance address_index in
      let h' = record_missed_branch prev_pc dest_pc cond address_index h in
      IsDistinct h'.missed_branches × (holds branch h'.missed_branches ≡ true)
unfolding record_missed_branch
record_missed_branch-IsDistinct prev_pc dest_pc cond address_index h d =
    let branch = new_missed_branch prev_pc dest_pc cond h.distance address_index in
    elim (Bool-cases (holds branch h.missed_branches)) [
      | inl old ↦ (ground (arith, old), ground (arith, old))
      | inr new ↦ (
        ground (arith, IsDistinct-push h.missed_branches branch d new),
        ground (arith, holds-push h.missed_branches branch),
      )
    ]
