-- ===== src/Instrument/BugInspector/Seen.antt =====
-- The indices of src/instrument/bug_inspector.rs, `record_seen_address`.
use tevm.Instrument.BugInspector.{
  BugInspector, position_from, find_or_push, push_target_first, record_seen_address, set_seen,
}
use native.Mathlib.Nat.{zero-add}
use mathlib.Core.List.{append-nil, append_assoc}
use mathlib.Core.Path.{subst}
use native.Mathlib.Decide.{ℕ_discrete}
use tevm.Prelude.{
  ℕ, suc, ◌+◌, ◌≡◌, ◌≢◌, refl, sym, ap, ◌∙◌, ◌⊎◌, inl, inr, Bool, true, false, List, [], ◌∷◌, ◌++◌,
  Option, none, some, arith, ◌==◌, Bool-cases, length, get_elem?, push, length-push,
  get_elem?-push_last,
}

-- Under `record_branch_for_target_only` the target heads the list of seen addresses.
abbrev pub IsHeaded : Bool → ℕ → List ℕ → Type 0
IsHeaded true target (a ∷ _) = a ≡ target
IsHeaded _ _ _ = Unit

abbrev pub TargetFirst : BugInspector → Type 0
TargetFirst s =
    IsHeaded s.instrument_config.record_branch_for_target_only s.instrument_config.target_address
      s.heuristics.seen_addresses

abbrev pub seen : BugInspector → List ℕ
seen s = s.heuristics.seen_addresses

-- A position that is found holds the address; one that is not found does not occur.
pub position_from-some :
    (i : ℕ) (xs : List ℕ) (a j : ℕ)
    → position_from i xs a ≡ some j
    → (k : ℕ) × (j ≡ i + k) × (get_elem? xs k ≡ some a)
unfolding position_from
position_from-some i [] a j h = cc
position_from-some i (x ∷ xs) a j h = elim (Bool-cases (x == a)) [
  | inl here ↦ (0, ground arith, ground arith)
  | inr there ↦
      let (k, e, f) = position_from-some (suc i) xs a j (rw there at h) in (suc k, omega arith, f)
]

position_from-push :
    (i : ℕ) (xs : List ℕ) (a : ℕ)
    → position_from i xs a ≡ none
    → position_from i (push xs a) a ≡ some (i + length xs)
unfolding position_from
position_from-push i [] a h = ground arith
position_from-push i (x ∷ xs) a h = ground (arith, position_from-push (suc i) xs a)

-- What `find_or_push` did: the address was there, or it has been put at the end.
data Found (a : ℕ) (s : BugInspector) (i : ℕ) (s' : BugInspector) : Type 0 where
  old : get_elem? (seen s) i ≡ some a → s' ≡ s → Found a s i s'
  fresh : i ≡ length (seen s) → s' ≡ set_seen s (push (seen s) a) → Found a s i s'

find_or_push-Found : (a : ℕ) (s : BugInspector) → let (i, s') = find_or_push a s in Found a s i s'
unfolding find_or_push
find_or_push-Found a s = go (position_from 0 (seen s) a) refl
  where
    go :
        (r : Option ℕ)
        → position_from 0 (seen s) a ≡ r
        → Found a s (find_or_push a s).0 (find_or_push a s).1
    go none e =
        Found.fresh (rw (e, find_or_push) (omega (arith, length-push (seen s) a)))
          (rw (e, find_or_push))
    go (some j) e =
        let (k, p, q) = position_from-some 0 (seen s) a j e in
        Found.old (rw (e, find_or_push) (rw p (rw zero-add q))) (rw (e, find_or_push))

-- What a call of `record_seen_address` promises: the index is that of the address, the target is
-- still first, and the addresses before keep their indices.
abbrev pub IsIndex : ℕ → BugInspector → ℕ × BugInspector → Type 0
IsIndex a s (i, s') =
    (get_elem? (seen s') i ≡ some a)
    × TargetFirst s'
    × ((rest : List ℕ) × (seen s' ≡ seen s ++ rest))

TargetFirst-append :
    (b : Bool) (t : ℕ) (xs : List ℕ) (a : ℕ)
    → IsHeaded b t xs
    → (b ≡ false) ⊎ (xs ≢ [])
    → IsHeaded b t (push xs a)
TargetFirst-append false t xs a h n = ground arith
TargetFirst-append true t [] a h n = ground arith
TargetFirst-append true t (x ∷ xs) a h n = h

Found-IsIndex :
    (a : ℕ) (s : BugInspector) {i : ℕ} {s' : BugInspector}
    → Found a s i s'
    → TargetFirst s
    → (s.instrument_config.record_branch_for_target_only ≡ false) ⊎ (seen s ≢ [])
    → IsIndex a s (i, s')
Found-IsIndex a s (Found.old g e) h n = (rw e g, rw e h, ([], rw e (sym (append-nil (seen s)))))
Found-IsIndex a s (Found.fresh p e) h n = (
  rw (e, p) (get_elem?-push_last (seen s) a),
  rw e (TargetFirst-append _ _ (seen s) a h n),
  (a ∷ [], rw e),
)

-- The three ways through `record_seen_address`.
record_seen_address_off :
    (a : ℕ) (s : BugInspector)
    → s.instrument_config.record_branch_for_target_only ≡ false
    → record_seen_address a s ≡ find_or_push a s
unfolding record_seen_address
record_seen_address_off a s f = ground arith

record_seen_address_on :
    (a : ℕ) (s : BugInspector)
    → s.instrument_config.record_branch_for_target_only ≡ true
    → s.instrument_config.target_address ≢ a
    → record_seen_address a s ≡ find_or_push a (push_target_first s)
unfolding record_seen_address
record_seen_address_on a s t n = ground arith

record_seen_address_target :
    (a : ℕ) (s : BugInspector)
    → s.instrument_config.record_branch_for_target_only ≡ true
    → s.instrument_config.target_address ≡ a
    → record_seen_address a s ≡ (0, push_target_first s)
unfolding record_seen_address
record_seen_address_target a s t e = ground arith

-- Putting the target first, seen as one of two cases.
push_target_first-cases :
    (s : BugInspector)
    → ((seen s ≡ []) × (push_target_first s ≡ set_seen s (s.instrument_config.target_address ∷ [])))
      ⊎ ((seen s ≢ []) × (push_target_first s ≡ s))
unfolding push_target_first
push_target_first-cases s = ground arith

IsHeaded-single : (b : Bool) (t : ℕ) → IsHeaded b t (t ∷ [])
IsHeaded-single false t = tt
IsHeaded-single true t = refl

head_of_IsHeaded :
    (b : Bool) (t : ℕ) (xs : List ℕ)
    → b ≡ true
    → IsHeaded b t xs
    → xs ≢ []
    → get_elem? xs 0 ≡ some t
head_of_IsHeaded false t xs e h n = cc
head_of_IsHeaded true t [] e h n = absurd (n refl)
head_of_IsHeaded true t (x ∷ xs) e h n = ap some h

push_target_first-IsIndex :
    (s : BugInspector)
    → s.instrument_config.record_branch_for_target_only ≡ true
    → TargetFirst s
    → IsIndex s.instrument_config.target_address s (0, push_target_first s)
      × (seen (push_target_first s) ≢ [])
push_target_first-IsIndex s t h = elim (push_target_first-cases s) [
  | inl (e, p) ↦
      rw p
        ((refl, IsHeaded-single _ _, (s.instrument_config.target_address ∷ [], rw e)), ground arith)
  | inr (n, p) ↦ rw p ((head_of_IsHeaded _ _ (seen s) t h n, h, ([], sym (append-nil (seen s)))), n)
]

IsIndex-trans :
    (a : ℕ) (s s1 : BugInspector) (r : ℕ × BugInspector)
    → ((rest : List ℕ) × (seen s1 ≡ seen s ++ rest))
    → IsIndex a s1 r
    → IsIndex a s r
IsIndex-trans a s s1 r (r1, e1) (g, t, (r2, e2)) =
    (g, t, (r1 ++ r2, e2 ∙ ap (λ l. l ++ r2) e1 ∙ append_assoc (seen s) r1 r2))

-- If branches are recorded for all addresses, or the list of seen addresses is empty or headed by
-- the target, then recording an address returns an index at which the list holds it afterwards, the
-- addresses seen before keep their places, and the same condition holds of the new list.
pub record_seen_address-IsIndex :
    (a : ℕ) (s : BugInspector) → TargetFirst s → IsIndex a s (record_seen_address a s)
record_seen_address-IsIndex a s h =
    elim (Bool-cases s.instrument_config.record_branch_for_target_only) [
      | inl t ↦
          let (first, ne) = push_target_first-IsIndex s t h in
          elim (ℕ_discrete s.instrument_config.target_address a) [
            | yes e ↦
                rw (record_seen_address_target a s t e)
                  (subst (λ x. IsIndex x s (0, push_target_first s)) e first)
            | no n ↦ rw (record_seen_address_on a s t n) (
                IsIndex-trans a s (push_target_first s) (find_or_push a (push_target_first s))
                  first.2
                  (Found-IsIndex a (push_target_first s) (find_or_push-Found a _) first.1 (inr ne)))
          ]
      | inr f ↦
          rw (record_seen_address_off a s f) (Found-IsIndex a s (find_or_push-Found a s) h (inl f))
    ]
