-- ===== src/Base/Lists.antt =====
-- Lists as tables: what an INSERT, an UPDATE of one row and a SELECT of one row do to them, and
-- the sum of a weight over the rows.
use Prim.Native.Nat.{ℕ, zero, suc, ◌+◌, ◌≤◌}
use mathlib.Core.Path.{◌≡◌, refl, ap}
use mathlib.Core.Logic.{inl, inr}
use mathlib.Core.Bool.{Bool, true}
use mathlib.Core.Option.{Option, none, some}
use mathlib.Core.List.{List, [], ◌∷◌, ◌++◌}
use native.Mathlib.Omega.{arith}
use doorbust.Base.Tests.{◌==◌, ==→eq, if◌then◌else◌, Bool-cases}

module _ {ℓ} {A : Type ℓ} where
  abbrev pub length : List A → ℕ
  length [] = 0
  length (x ∷ xs) = suc (length xs)

  -- The first row that passes the test: a SELECT on a key.
  abbrev pub find : (A → Bool) → List A → Option A
  find p [] = none
  find p (x ∷ xs) = if p x then some x else find p xs

  abbrev pub put_back : A → Option (A × List A) → Option (A × List A)
  put_back x none = none
  put_back x (some (y, ys)) = some (y, x ∷ ys)

  -- UPDATE … WHERE <key and guard> RETURNING *: the new row and the new table, or no row.
  unfoldable pub update_first : (A → Bool) → (A → A) → List A → Option (A × List A)
  update_first p f [] = none
  update_first p f (x ∷ xs) = if p x then some (f x, f x ∷ xs) else put_back x (update_first p f xs)

  abbrev pub keep : (A → Bool) → List A → List A
  keep p [] = []
  keep p (x ∷ xs) = let rest = keep p xs in if p x then x ∷ rest else rest

  unfoldable pub sum : (A → ℕ) → List A → ℕ
  sum m [] = 0
  sum m (x ∷ xs) = m x + sum m xs

  pub sum-append : (m : A → ℕ) (xs ys : List A) → sum m (xs ++ ys) ≡ sum m xs + sum m ys
  unfolding sum
  sum-append m [] ys = omega arith
  sum-append m (x ∷ xs) ys = omega (arith, sum-append m xs ys)

  pub sum-one : (m : A → ℕ) (x : A) → sum m (x ∷ []) ≡ m x
  unfolding sum
  sum-one m x = omega arith

  abbrev pub take : ℕ → List A → List A
  take zero xs = []
  take (suc n) [] = []
  take (suc n) (x ∷ xs) = x ∷ take n xs

  pub sum-add :
      (a b c : A → ℕ) (xs : List A) → ((x : A) → a x + b x ≡ c x) → sum a xs + sum b xs ≡ sum c xs
  unfolding sum
  sum-add a b c [] h = omega arith
  sum-add a b c (x ∷ xs) h = omega (arith, h x, sum-add a b c xs h)

  -- How often a key stands in a table, and how many pairs of rows share one.
  abbrev pub has_key : (A → ℕ) → ℕ → A → ℕ
  has_key k n x = if k x == n then 1 else 0

  unfoldable pub repeats : (A → ℕ) → List A → ℕ
  repeats k [] = 0
  repeats k (x ∷ xs) = sum (has_key k (k x)) xs + repeats k xs

  pub sum-has_key-le : (k : A → ℕ) (n : ℕ) (xs : List A) → sum (has_key k n) xs ≤ 1 + repeats k xs
  unfolding sum repeats
  sum-has_key-le k n [] = omega arith
  sum-has_key-le k n (x ∷ xs) = elim (Bool-cases (k x == n)) [
    | inl same ↦ ground (arith, ap (λ (j : ℕ). sum (has_key k j) xs) (==→eq (k x) n same))
    | inr other ↦ rw other (ground (arith, sum-has_key-le k n xs))
  ]

  pub repeats-append-one :
      (k : A → ℕ) (xs : List A) (x : A)
      → repeats k (xs ++ x ∷ []) ≡ repeats k xs + sum (has_key k (k x)) xs
  unfolding sum repeats
  repeats-append-one k [] x = omega arith
  repeats-append-one k (y ∷ ys) x =
      ground (arith, repeats-append-one k ys x, sum-append (has_key k (k y)) ys (x ∷ []))

  pub find-none :
      (k : A → ℕ) (n : ℕ) (xs : List A) → find (λ x. k x == n) xs ≡ none → sum (has_key k n) xs ≡ 0
  unfolding sum
  find-none k n [] h = refl
  find-none k n (x ∷ xs) h = ground (arith, find-none k n xs)

  pub find-some : (t : A → Bool) (xs : List A) (x : A) → find t xs ≡ some x → t x ≡ true
  find-some t [] x h = cc
  find-some t (y ∷ ys) x h = ground (arith, find-some t ys x)

  -- A row of a table: no weight of it exceeds the table's.
  abbrev pub IsRow : List A → A → Type ℓ
  IsRow xs x = (m : A → ℕ) → m x ≤ sum m xs

  -- A predicate of every row.
  abbrev pub All {κ} : (A → Type κ) → List A → Type κ
  All P [] = Unit
  All P (x ∷ xs) = P x × All P xs

  pub All-append {κ} : (P : A → Type κ) (xs ys : List A) → All P xs → All P ys → All P (xs ++ ys)
  All-append P [] ys hx hy = hy
  All-append P (x ∷ xs) ys hx hy = (hx.0, All-append P xs ys hx.1 hy)

module _ {ℓ} {A : Type ℓ} where
  pub All-weaken {κ λ'} :
      {P : A → Type κ} {Q : A → Type λ'} (xs : List A) → ((x : A) → P x → Q x) → All P xs → All Q xs
  All-weaken [] h a = tt
  All-weaken (x ∷ xs) h a = (h x a.0, All-weaken xs h a.1)

  pub All-IsRow : (xs : List A) → All (IsRow xs) xs
  unfolding sum
  All-IsRow [] = tt
  All-IsRow (x ∷ xs) =
      (λ m. omega arith, All-weaken xs (λ y h m. omega (arith, h m)) (All-IsRow xs))

  pub All-take {κ} : (P : A → Type κ) (n : ℕ) (xs : List A) → All P xs → All P (take n xs)
  All-take P zero xs a = tt
  All-take P (suc n) [] a = tt
  All-take P (suc n) (x ∷ xs) a = (a.0, All-take P n xs a.1)

  pub All-keep {κ} :
      (P : A → Type κ) (t : A → Bool) (xs : List A)
      → All P xs
      → All (λ x. (t x ≡ true) × P x) (keep t xs)
  All-keep P t [] a = tt
  All-keep P t (x ∷ xs) a = elim (Bool-cases (t x)) [
    | inl h ↦ rw h ((h, a.0), All-keep P t xs a.1)
    | inr h ↦ rw h (All-keep P t xs a.1)
  ]

module _ {ℓ} {A : Type ℓ} (p : A → Bool) (f : A → A) where
  -- A row that an UPDATE returns stood in the table, passed the WHERE clause and is the only one
  -- that changed.
  abbrev pub Replaces : List A → A → List A → Type ℓ
  Replaces xs y ys =
      (x : A) × (p x ≡ true)
      × (y ≡ f x)
      × ((m : A → ℕ) → sum m ys + m x ≡ sum m xs + m y)
      × ((m : A → ℕ) → m x ≤ sum m xs)

  Replaces-later :
      (x : A) (xs : List A) (r : Option (A × List A)) (y : A) (ys : List A)
      → ((v : A) (vs : List A) → r ≡ some (v, vs) → Replaces xs v vs)
      → put_back x r ≡ some (y, ys)
      → Replaces (x ∷ xs) y ys
  unfolding sum
  Replaces-later x xs none y ys ih e = cc
  Replaces-later x xs (some (v, vs)) y ys ih e =
      let (z, hit, new, weigh, member) = ih v vs refl in
      (z, hit, ground arith, λ m. ground (arith, weigh m), λ m. omega (arith, member m))

  pub update_first-Replaces :
      (xs : List A) (y : A) (ys : List A) → update_first p f xs ≡ some (y, ys) → Replaces xs y ys
  unfolding update_first sum
  update_first-Replaces [] y ys e = cc
  update_first-Replaces (x ∷ xs) y ys e = elim (Bool-cases (p x)) [
    | inl hit ↦ (x, hit, ground arith, λ m. ground arith, λ m. omega arith)
    | inr miss ↦
        Replaces-later x xs (update_first p f xs) y ys (update_first-Replaces xs) (ground arith)
  ]

module _ {ℓ} {A : Type ℓ} (p : A → Bool) (f : A → A) (k : A → ℕ)
    (same : (x : A) → k (f x) ≡ k x) where
  sum-has_key-put_back :
      (n : ℕ) (x : A) (xs : List A) (r : Option (A × List A)) (y : A) (ys : List A)
      → ((v : A) (vs : List A) → r ≡ some (v, vs) → sum (has_key k n) vs ≡ sum (has_key k n) xs)
      → put_back x r ≡ some (y, ys)
      → sum (has_key k n) ys ≡ sum (has_key k n) (x ∷ xs)
  unfolding sum
  sum-has_key-put_back n x xs none y ys ih e = cc
  sum-has_key-put_back n x xs (some (v, vs)) y ys ih e = ground (arith, ih v vs refl)

  pub sum-has_key-update_first :
      (n : ℕ) (xs : List A) (y : A) (ys : List A)
      → update_first p f xs ≡ some (y, ys)
      → sum (has_key k n) ys ≡ sum (has_key k n) xs
  unfolding update_first sum
  sum-has_key-update_first n [] y ys e = cc
  sum-has_key-update_first n (x ∷ xs) y ys e = elim (Bool-cases (p x)) [
    | inl hit ↦ ground (arith, same x)
    | inr miss ↦
        sum-has_key-put_back n x xs (update_first p f xs) y ys (sum-has_key-update_first n xs)
          (ground arith)
  ]

  repeats-put_back :
      (x : A) (xs : List A) (r : Option (A × List A)) (y : A) (ys : List A)
      → ((v : A) (vs : List A)
          → r ≡ some (v, vs)
          → (repeats k vs ≡ repeats k xs) × (sum (has_key k (k x)) vs ≡ sum (has_key k (k x)) xs))
      → put_back x r ≡ some (y, ys)
      → repeats k ys ≡ repeats k (x ∷ xs)
  unfolding repeats
  repeats-put_back x xs none y ys ih e = cc
  repeats-put_back x xs (some (v, vs)) y ys ih e = ground (arith, ih v vs refl)

  -- An UPDATE that leaves the key alone keeps the keys as distinct as they were.
  pub repeats-update_first :
      (xs : List A) (y : A) (ys : List A)
      → update_first p f xs ≡ some (y, ys)
      → repeats k ys ≡ repeats k xs
  unfolding update_first repeats
  repeats-update_first [] y ys e = cc
  repeats-update_first (x ∷ xs) y ys e = elim (Bool-cases (p x)) [
    | inl hit ↦ ground (arith, ap (λ (j : ℕ). sum (has_key k j) xs) (same x))
    | inr miss ↦
        repeats-put_back x xs (update_first p f xs) y ys
          (λ v vs h. (repeats-update_first xs v vs h, sum-has_key-update_first (k x) xs v vs h))
          (ground arith)
  ]
