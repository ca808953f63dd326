-- ===== src/Bench/Recorder/Sorting.antt =====
-- What sorting keeps, and where the elements of a sorted list stand.
use doorbust.Base.{
  ℕ, zero, suc, ◌+◌, ◌≤◌, ◌<◌, leb, ◌≡◌, refl, List, [], ◌∷◌, length, sum, All, All-weaken,
  Bool-cases, inl, inr, arith,
}
use doorbust.Bench.Recorder.{insert, sort, elem_at, one_if}

abbrev pub IsSorted : List ℕ → Type 0
IsSorted [] = Unit
IsSorted (x ∷ xs) = All (λ y. x ≤ y) xs × IsSorted xs

-- How many are at most v, and at least v.
abbrev pub count_at_most : ℕ → List ℕ → ℕ
count_at_most v xs = sum (λ x. one_if (leb x v)) xs

abbrev pub count_at_least : ℕ → List ℕ → ℕ
count_at_least v xs = sum (λ x. one_if (leb v x)) xs

sum-insert : (m : ℕ → ℕ) (x : ℕ) (ys : List ℕ) → sum m (insert x ys) ≡ m x + sum m ys
unfolding sum
sum-insert m x [] = omega arith
sum-insert m x (y ∷ ys) = elim (Bool-cases (leb x y)) [
  | inl e ↦ rw e (omega arith)
  | inr e ↦ rw e (omega (arith, sum-insert m x ys))
]

pub sum-sort : (m : ℕ → ℕ) (xs : List ℕ) → sum m (sort xs) ≡ sum m xs
unfolding sum sort
sum-sort m [] = refl
sum-sort m (x ∷ xs) = omega (arith, sum-insert m x (sort xs), sum-sort m xs)

length-insert : (x : ℕ) (ys : List ℕ) → length (insert x ys) ≡ suc (length ys)
length-insert x [] = refl
length-insert x (y ∷ ys) = elim (Bool-cases (leb x y)) [
  | inl e ↦ rw e refl
  | inr e ↦ rw e (omega (arith, length-insert x ys))
]

pub length-sort : (xs : List ℕ) → length (sort xs) ≡ length xs
unfolding sort
length-sort [] = refl
length-sort (x ∷ xs) = omega (arith, length-insert x (sort xs), length-sort xs)

All-insert : (z x : ℕ) (ys : List ℕ) → z ≤ x → All (λ y. z ≤ y) ys → All (λ y. z ≤ y) (insert x ys)
All-insert z x [] h a = (h, tt)
All-insert z x (y ∷ ys) h a = elim (Bool-cases (leb x y)) [
  | inl e ↦ rw e (h, a)
  | inr e ↦ rw e (a.0, All-insert z x ys h a.1)
]

insert-IsSorted : (x : ℕ) (ys : List ℕ) → IsSorted ys → IsSorted (insert x ys)
insert-IsSorted x [] s = (tt, tt)
insert-IsSorted x (y ∷ ys) s = elim (Bool-cases (leb x y)) [
  | inl e ↦
      let first : x ≤ y = ground arith in
      rw e ((first, All-weaken ys (λ z h. omega (arith, first, h)) s.0), s)
  | inr e ↦ rw e (All-insert y x ys (ground arith) s.0, insert-IsSorted x ys s.1)
]

pub sort-IsSorted : (xs : List ℕ) → IsSorted (sort xs)
unfolding sort
sort-IsSorted [] = tt
sort-IsSorted (x ∷ xs) = insert-IsSorted x (sort xs) (sort-IsSorted xs)

elem_at-All : (z i : ℕ) (s : List ℕ) → i < length s → All (λ y. z ≤ y) s → z ≤ elem_at i s
elem_at-All z i [] h a = absurd (omega arith)
elem_at-All z zero (x ∷ xs) h a = a.0
elem_at-All z (suc i) (x ∷ xs) h a = elem_at-All z i xs (omega arith) a.1

All-at_least : (z : ℕ) (s : List ℕ) → All (λ y. z ≤ y) s → length s ≤ count_at_least z s
unfolding sum
All-at_least z [] a = omega arith
All-at_least z (x ∷ xs) a = let h = a.0 in ground (arith, All-at_least z xs a.1)

-- The element at index i has i + 1 elements up to it, and all but i from it on.
pub elem_at_rank :
    (i : ℕ) (s : List ℕ)
    → IsSorted s
    → i < length s
    → (i < count_at_most (elem_at i s) s) × (length s ≤ count_at_least (elem_at i s) s + i)
unfolding sum
elem_at_rank i [] sorted h = absurd (omega arith)
elem_at_rank zero (x ∷ xs) sorted h = (ground arith, ground (arith, All-at_least x xs sorted.0))
elem_at_rank (suc i) (x ∷ xs) sorted h =
    let (below, above) = elem_at_rank i xs sorted.1 (omega arith) in
    let first = elem_at-All x i xs (omega arith) sorted.0 in (ground arith, ground arith)
