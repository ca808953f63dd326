-- ===== src/Base/Keys.antt =====
-- Tables whose key tells the rows apart.
use Prim.Native.Nat.{ℕ, ◌≤◌}
use mathlib.Core.Path.{◌≡◌, refl}
use mathlib.Core.Logic.{inl, inr}
use mathlib.Core.Bool.{Bool, true, false, not, ◌&&◌}
use mathlib.Core.Option.{Option, none, some}
use mathlib.Core.List.{List, [], ◌∷◌}
use native.Mathlib.Omega.{arith}
use doorbust.Base.Tests.{◌==◌, if◌then◌else◌, Bool-cases}
use doorbust.Base.Lists.{
  find, update_first, put_back, sum, sum-add, has_key, repeats, sum-has_key-le, IsRow,
}

module _ {ℓ} {A : Type ℓ} where
  pub find-IsRow : (t : A → Bool) (xs : List A) (x : A) → find t xs ≡ some x → IsRow xs x
  unfolding sum
  find-IsRow t [] x h = cc
  find-IsRow t (y ∷ ys) x h = elim (Bool-cases (t y)) [
    | inl hit ↦ λ m. ground arith
    | inr miss ↦ λ m. ground (arith, find-IsRow t ys x (ground arith) m)
  ]

  -- An UPDATE meets a row where there is a weight that only such rows have.
  pub update_first-hit :
      (p : A → Bool) (f : A → A) (m : A → ℕ) (xs : List A)
      → ((x : A) → p x ≡ false → m x ≡ 0)
      → 1 ≤ sum m xs
      → (r : A × List A) × (update_first p f xs ≡ some r)
  unfolding sum update_first
  update_first-hit p f m [] only h = absurd (omega arith)
  update_first-hit p f m (x ∷ xs) only h = elim (Bool-cases (p x)) [
    | inl hit ↦ rw hit ((f x, f x ∷ xs), refl)
    | inr miss ↦
        let ((y, ys), e) = update_first-hit p f m xs only (omega (arith, only x miss, h)) in
        rw miss (rw e ((y, x ∷ ys), refl))
  ]

module _ {ℓ} {A : Type ℓ} (k : A → ℕ) (xs : List A) (distinct : repeats k xs ≡ 0) where
  abbrev one_of : (A → Bool) → ℕ → A → ℕ
  one_of b n x = if k x == n && b x then 1 else 0

  -- Two rows with one key pass the same tests.
  pub same_row : (b : A → Bool) (x y : A) → IsRow xs x → IsRow xs y → k x ≡ k y → b x ≡ b y
  same_row b x y hx hy same =
      let total =
        sum-add (one_of b (k y)) (one_of (λ z. not (b z)) (k y)) (has_key k (k y)) xs
          (λ z. ground arith) in
      let most = sum-has_key-le k (k y) xs in
      elim (Bool-cases (b x)) [
        | inl bx ↦ elim (Bool-cases (b y)) [
          | inl by' ↦ cc
          | inr by' ↦
              absurd (ground (arith, hx (one_of b (k y)), hy (one_of (λ z. not (b z)) (k y))))
        ]
        | inr bx ↦ elim (Bool-cases (b y)) [
          | inl by' ↦
              absurd (ground (arith, hx (one_of (λ z. not (b z)) (k y)), hy (one_of b (k y))))
          | inr by' ↦ cc
        ]
      ]

module _ {ℓ} {A : Type ℓ} (k : A → ℕ) (p t : A → Bool) (f : A → A) (n : ℕ)
    (keyed : (x : A) → p x ≡ true → k x ≡ n) (same : (x : A) → t (f x) ≡ t x) where
  find-put_back :
      (x o : A) (xs : List A) (r : Option (A × List A)) (y : A) (ys : List A)
      → t x ≡ false
      → ((v : A) (vs : List A) → r ≡ some (v, vs) → find t vs ≡ some (f o))
      → put_back x r ≡ some (y, ys)
      → find t ys ≡ some (f o)
  find-put_back x o xs none y ys miss ih e = cc
  find-put_back x o xs (some (v, vs)) y ys miss ih e = ground (arith, ih v vs refl)

  -- The row that a SELECT on another column finds is the one that the UPDATE meets, and is found
  -- again with its new value.
  pub find-update_first :
      (xs : List A) (o y : A) (ys : List A)
      → repeats k xs ≡ 0
      → find t xs ≡ some o
      → p o ≡ true
      → update_first p f xs ≡ some (y, ys)
      → find t ys ≡ some (f o)
  unfolding update_first repeats
  find-update_first [] o y ys distinct found hit e = cc
  find-update_first (x ∷ xs) o y ys distinct found hit e = elim (Bool-cases (t x)) [
    | inl tx ↦ elim (Bool-cases (p x)) [ inl px ↦ ground (arith, same x) | inr px ↦ ground arith ]
    | inr tx ↦ elim (Bool-cases (p x)) [
      | inl px ↦ absurd (
          ground
            (arith, keyed x px, keyed o hit, find-IsRow t xs o (ground arith) (has_key k (k x))))
      | inr px ↦
          find-put_back x o xs (update_first p f xs) y ys tx
            (λ v vs h. find-update_first xs o v vs (omega arith) (ground arith) hit h)
            (ground arith)
    ]
  ]
