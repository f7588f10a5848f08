-- ===== src/Scheduler/Sort.antt =====
-- The sort of the pending numbers.
use bilbycast_rist.Prelude.{
  ℕ, ◌≤◌, ◌≡◌, ◌∙◌, refl, ap, arith, Bool, true, false, List, [], ◌∷◌, leb, ◌==◌, ◌||◌, All, inl,
  inr, Bool-cases,
}
use bilbycast_rist.Nack.Builder.{contains}
use bilbycast_rist.Scheduler.{insert_sorted, sort}

abbrev pub IsSorted : List ℕ → Type 0
IsSorted [] = Unit
IsSorted (x ∷ xs) = All (λ y. x ≤ y) xs × IsSorted xs

All-le : (a x : ℕ) (xs : List ℕ) → a ≤ x → All (λ y. x ≤ y) xs → All (λ y. a ≤ y) xs
All-le a x [] h k = tt
All-le a x (y ∷ ys) h k = (omega (arith, k.0), All-le a x ys h k.1)

All-insert_sorted :
    (a x : ℕ) (xs : List ℕ) → x ≤ a → All (λ y. x ≤ y) xs → All (λ y. x ≤ y) (insert_sorted a xs)
unfolding insert_sorted
All-insert_sorted a x [] h k = (h, tt)
All-insert_sorted a x (y ∷ ys) h k = elim (Bool-cases (leb a y)) [
  | inl e ↦ rw e (h, k)
  | inr e ↦ rw e (k.0, All-insert_sorted a x ys h k.1)
]

insert_sorted-IsSorted : (a : ℕ) (xs : List ℕ) → IsSorted xs → IsSorted (insert_sorted a xs)
unfolding insert_sorted
insert_sorted-IsSorted a [] h = (tt, tt)
insert_sorted-IsSorted a (x ∷ xs) h = elim (Bool-cases (leb a x)) [
  | inl e ↦ let le : a ≤ x = ground (arith, e) in rw e ((le, All-le a x xs le h.0), h)
  | inr e ↦
      let le : x ≤ a = ground (arith, e) in
      rw e (All-insert_sorted a x xs le h.0, insert_sorted-IsSorted a xs h.1)
]

pub sort-IsSorted : (xs : List ℕ) → IsSorted (sort xs)
unfolding sort
sort-IsSorted [] = tt
sort-IsSorted (x ∷ xs) = insert_sorted-IsSorted x (sort xs) (sort-IsSorted xs)

contains-insert_sorted :
    (a s : ℕ) (xs : List ℕ) → contains (insert_sorted a xs) s ≡ (a == s || contains xs s)
unfolding insert_sorted
contains-insert_sorted a s [] = refl
contains-insert_sorted a s (x ∷ xs) = elim (Bool-cases (leb a x)) [
  | inl e ↦ rw e refl
  | inr e ↦ rw e (
      ap (λ t. x == s || t) (contains-insert_sorted a s xs)
      ∙ swap (x == s) (a == s) (contains xs s))
]
  where
    swap : (a b c : Bool) → (a || (b || c)) ≡ (b || (a || c))
    swap true true c = refl
    swap true false c = refl
    swap false b c = refl

pub contains-sort : (xs : List ℕ) (s : ℕ) → contains (sort xs) s ≡ contains xs s
unfolding sort
contains-sort [] s = refl
contains-sort (x ∷ xs) s =
    contains-insert_sorted x s (sort xs) ∙ ap (λ t. x == s || t) (contains-sort xs s)
