-- ===== src/Instrument/BugInspector/Recent.antt =====
-- src/instrument/bug_inspector.rs: `add_bug` over any number of signals.
use mathlib.Core.List.{append-nil, append_assoc}
use tevm.Instrument.Bug.{Bug, BugType}
use tevm.Instrument.BugInspector.{BugInspector, add_bug, add_bug_by, add_coverage, add_storage_bug}
use tevm.Prelude.{
  ℕ, zero, suc, ◌-◌, ◌≤◌, ◌<◌, ◌≡◌, refl, ap, ◌∙◌, true, List, [], ◌∷◌, ◌++◌, ◌⊎◌, inl, inr, arith,
  ltb, ltb→lt, ltb-false→le, Bool-cases, length, drop, push, All, pop_front, length-push,
  length-drop, length-pop_front, if◌then◌else◌,
}

module _ {A : Type 0} where
  -- the last `n` elements
  abbrev pub last_of : ℕ → List A → List A
  last_of n xs = drop (length xs - n) xs

  drop-append : (n : ℕ) (xs ys : List A) → n ≤ length xs → drop n (xs ++ ys) ≡ drop n xs ++ ys
  drop-append zero xs ys h = refl
  drop-append (suc n) [] ys h = absurd (omega arith)
  drop-append (suc n) (x ∷ xs) ys h = drop-append n xs ys (omega arith)

  drop-suc : (k : ℕ) (xs : List A) → drop (suc k) xs ≡ pop_front (drop k xs)
  drop-suc zero [] = refl
  drop-suc zero (x ∷ xs) = refl
  drop-suc (suc k) [] = refl
  drop-suc (suc k) (x ∷ xs) = drop-suc k xs

  -- a push that drops the oldest element past `n`
  abbrev bounded_push : ℕ → List A → A → List A
  bounded_push n xs x = if ltb n (length (push xs x)) then pop_front (push xs x) else push xs x

  bounded_push-last_of :
      (n : ℕ) (xs : List A) (x : A) → bounded_push n (last_of n xs) x ≡ last_of n (push xs x)
  bounded_push-last_of n xs x = elim (Bool-cases (ltb (length xs) n)) [
    | inl short ↦
        let none_before : length xs - n ≡ 0 = omega (arith, ltb→lt (length xs) n short) in
        let none_after : length (push xs x) - n ≡ 0 =
          omega (arith, length-push xs x, ltb→lt (length xs) n short) in
        rw (none_before, none_after) (ground (arith, length-push xs x))
    | inr full ↦
        let k = length xs - n in
        let e : length (push (drop k xs) x) ≡ suc n =
          omega
            (arith, length-push (drop k xs) x, length-drop k xs, ltb-false→le (length xs) n full) in
        let f : length (push xs x) - n ≡ suc k =
          omega (arith, length-push xs x, ltb-false→le (length xs) n full) in
        rw f
          (rw (drop-suc k (push xs x), drop-append k xs (x ∷ []) (omega arith)) (ground (arith, e)))
  ]

-- the destination that a signal adds to the coverage
abbrev pub jumpi_dest : BugType → List ℕ
jumpi_dest (BugType.jumpi dest) = dest ∷ []
jumpi_dest _ = []

abbrev pub jumpi_dests : List Bug → List ℕ
jumpi_dests [] = []
jumpi_dests (bug ∷ bugs) = jumpi_dest bug.bug_type ++ jumpi_dests bugs

-- `add_bug` for each signal in turn
abbrev pub add_bugs : List Bug → BugInspector → BugInspector
add_bugs [] s = s
add_bugs (bug ∷ bugs) s = add_bugs bugs (add_bug bug s)

abbrev pub coverage : BugInspector → List ℕ
coverage s = s.heuristics.coverage

add_coverage-last_of :
    (dest : ℕ) (s : BugInspector) (xs : List ℕ)
    → s.instrument_config.heuristics ≡ true
    → coverage s ≡ last_of 256 xs
    → coverage (add_coverage dest s) ≡ last_of 256 (push xs dest)
unfolding add_coverage
add_coverage-last_of dest s xs on e =
    ground (arith, bounded_push-last_of 256 xs dest, ap (λ l. bounded_push 256 l dest) e)

storage_bug-coverage :
    (bug : Bug) (s : BugInspector) → coverage (add_storage_bug bug s) ≡ coverage s
unfolding add_storage_bug
storage_bug-coverage bug s = refl

coverage-add_bug_by :
    (t : BugType) (bug : Bug) (s : BugInspector) (xs : List ℕ)
    → s.instrument_config.heuristics ≡ true
    → coverage s ≡ last_of 256 xs
    → coverage (add_bug_by t bug s) ≡ last_of 256 (xs ++ jumpi_dest t)
coverage-add_bug_by (BugType.jumpi dest) bug s xs on e = add_coverage-last_of dest s xs on e
coverage-add_bug_by (BugType.sload _) bug s xs on e =
    rw (append-nil xs) (storage_bug-coverage bug s ∙ e)
coverage-add_bug_by (BugType.sstore _ _) bug s xs on e =
    rw (append-nil xs) (storage_bug-coverage bug s ∙ e)
coverage-add_bug_by _ bug s xs on e = rw (append-nil xs) e

config-add_bug_by :
    (t : BugType) (bug : Bug) (s : BugInspector)
    → (add_bug_by t bug s).instrument_config ≡ s.instrument_config
unfolding add_coverage add_storage_bug
config-add_bug_by (BugType.jumpi dest) bug s = ground arith
config-add_bug_by _ bug s = refl

-- With heuristics on, after any signals in any order, the coverage is the last 256 of the jump
-- destinations that were reported, those before included, if it was that of those before.
pub coverage-add_bugs :
    (bugs : List Bug) (s : BugInspector) (xs : List ℕ)
    → s.instrument_config.heuristics ≡ true
    → coverage s ≡ last_of 256 xs
    → coverage (add_bugs bugs s) ≡ last_of 256 (xs ++ jumpi_dests bugs)
coverage-add_bugs [] s xs on e = rw (append-nil xs) e
coverage-add_bugs (bug ∷ bugs) s xs on e =
    let next =
      coverage-add_bugs bugs (add_bug bug s) (xs ++ jumpi_dest bug.bug_type)
        (unfold add_bug in (ap (λ c. c.heuristics) (config-add_bug_by bug.bug_type bug s) ∙ on))
        (unfold add_bug in coverage-add_bug_by bug.bug_type bug s xs on e) in
    rw (append_assoc xs (jumpi_dest bug.bug_type) (jumpi_dests bugs)) at next

-- how the queue is before the signal is put at its end
abbrev pub IsKept : List Bug → List Bug → Type 0
IsKept queue kept = (kept ≡ queue) ⊎ (kept ≡ pop_front queue) × (256 < length queue)

add_storage_bug-IsKept :
    (bug : Bug) (s : BugInspector)
    → (kept : List Bug) × ((add_storage_bug bug s).bug_data ≡ push kept bug)
      × IsKept s.bug_data kept
unfolding add_storage_bug
add_storage_bug-IsKept bug s = elim (Bool-cases (ltb 256 (length s.bug_data))) [
  | inl full ↦ (pop_front s.bug_data, ground arith, inr (refl, ltb→lt 256 (length s.bug_data) full))
  | inr room ↦ (s.bug_data, ground arith, inl refl)
]

add_bug_by-IsKept :
    (t : BugType) (bug : Bug) (s : BugInspector)
    → jumpi_dest t ≡ []
    → (kept : List Bug) × ((add_bug_by t bug s).bug_data ≡ push kept bug) × IsKept s.bug_data kept
add_bug_by-IsKept (BugType.jumpi dest) bug s n = cc
add_bug_by-IsKept (BugType.sload _) bug s n = add_storage_bug-IsKept bug s
add_bug_by-IsKept (BugType.sstore _ _) bug s n = add_storage_bug-IsKept bug s
add_bug_by-IsKept _ bug s n = (s.bug_data, refl, inl refl)

-- A signal that is no jump is put at the end of the queue. At most the oldest signal is dropped
-- for it, and only from a queue of more than 256.
pub add_bug-IsKept :
    (bug : Bug) (s : BugInspector)
    → jumpi_dest bug.bug_type ≡ []
    → (kept : List Bug) × ((add_bug bug s).bug_data ≡ push kept bug) × IsKept s.bug_data kept
unfolding add_bug
add_bug-IsKept bug s n = add_bug_by-IsKept bug.bug_type bug s n

-- storage accesses
abbrev pub IsStorage : BugType → Type 0
IsStorage (BugType.sload _) = Unit
IsStorage (BugType.sstore _ _) = Unit
IsStorage _ = ⊥

add_storage_bug-le :
    (bug : Bug) (s : BugInspector) (n : ℕ)
    → 257 ≤ n
    → length s.bug_data ≤ n
    → length (add_storage_bug bug s).bug_data ≤ n
unfolding add_storage_bug
add_storage_bug-le bug s n lo h = elim (Bool-cases (ltb 256 (length s.bug_data))) [
  | inl full ↦
      ground (arith, full, length-push (pop_front s.bug_data) bug, length-pop_front s.bug_data)
  | inr room ↦ ground (arith, room, length-push s.bug_data bug)
]

add_bug_by-storage_le :
    (t : BugType) (bug : Bug) (s : BugInspector) (n : ℕ)
    → IsStorage t
    → 257 ≤ n
    → length s.bug_data ≤ n
    → length (add_bug_by t bug s).bug_data ≤ n
add_bug_by-storage_le (BugType.sload _) bug s n st lo h = add_storage_bug-le bug s n lo h
add_bug_by-storage_le (BugType.sstore _ _) bug s n st lo h = add_storage_bug-le bug s n lo h
add_bug_by-storage_le _ bug s n st lo h = absurd st

-- However many storage accesses are reported, the queue does not grow past its length before, or
-- past 257 signals if it was shorter.
pub add_bugs-storage_le :
    (bugs : List Bug) (s : BugInspector) (n : ℕ)
    → All (λ bug. IsStorage bug.bug_type) bugs
    → 257 ≤ n
    → length s.bug_data ≤ n
    → length (add_bugs bugs s).bug_data ≤ n
add_bugs-storage_le [] s n st lo h = h
add_bugs-storage_le (bug ∷ bugs) s n st lo h =
    add_bugs-storage_le bugs (add_bug bug s) n st.1 lo
      (unfold add_bug in add_bug_by-storage_le bug.bug_type bug s n st.0 lo h)
