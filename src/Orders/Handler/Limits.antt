-- ===== src/Orders/Handler/Limits.antt =====
-- What the paging of a list allows.
use doorbust.Base.{
  ℕ, zero, suc, ◌-◌, ◌≤◌, ◌<◌, ◌%◌, ◌≡◌, refl, ltb, arith, Bool-cases, ◌⊎◌, inl, inr,
}
use native.Mathlib.Nat.{mod-eq_of_lt}
use doorbust.Orders.Handler.{
  ℤ, pos, negsuc, int32, two_31, two_32, Param, absent, malformed, number, Paging, paged,
  parse_pagination, max_list_limit, offset_of, at_most, paged_at,
}

abbrev pub IsLimit : ℤ → Type 0
IsLimit (pos n) = (1 ≤ n) × (n ≤ max_list_limit)
IsLimit (negsuc n) = ⊥

abbrev pub IsOffset : ℤ → Type 0
IsOffset (pos n) = Unit
IsOffset (negsuc n) = ⊥

-- The limit that is taken for a parameter, and the offset: as they should be, or what is left of a
-- number that does not fit 32 bits.
abbrev pub IsLimitOf : Param → ℤ → Type 0
IsLimitOf p x =
    IsLimit x
    ⊎ ((n : ℕ) × (p ≡ number (pos n)) × (two_31 ≤ n) × (x ≡ at_most max_list_limit (int32 n)))

abbrev pub IsOffsetOf : Param → ℤ → Type 0
IsOffsetOf p y = IsOffset y ⊎ ((n : ℕ) × (p ≡ number (pos n)) × (two_31 ≤ n) × (y ≡ int32 n))

abbrev Sound : Param → Param → Paging → Type 0
Sound l o (paged x y) = IsLimitOf l x × IsOffsetOf o y
Sound l o _ = Unit

pub int32-small : (n : ℕ) → n < two_31 → int32 n ≡ pos n
unfolding int32
int32-small n h = let low : n % two_32 ≡ n = mod-eq_of_lt (omega arith) in rw low (ground arith)

int32-large : (n : ℕ) → two_31 ≤ n → n < two_32 → int32 n ≡ negsuc (two_32 - n - 1)
unfolding int32
int32-large n h h' = let low : n % two_32 ≡ n = mod-eq_of_lt (omega arith) in rw low (ground arith)

at_most-IsLimit : (n : ℕ) → 1 ≤ n → IsLimit (at_most max_list_limit (pos n))
at_most-IsLimit n h = elim (Bool-cases (ltb max_list_limit n)) [
  | inl e ↦ rw e (omega arith, omega arith)
  | inr e ↦ rw e (h, ground arith)
]

fits_or : (n : ℕ) → (n < two_31) ⊎ (two_31 ≤ n)
fits_or n = elim (Bool-cases (ltb n two_31)) [
  | inl e ↦ inl (ground arith)
  | inr e ↦ inr (ground arith)
]

int32-IsLimitOf : (n : ℕ) → 1 ≤ n → IsLimitOf (number (pos n)) (at_most max_list_limit (int32 n))
int32-IsLimitOf n h = elim (fits_or n) [
  | inl small ↦ inl (rw (int32-small n small) (at_most-IsLimit n h))
  | inr large ↦ inr (n, refl, large, refl)
]

int32-IsOffsetOf : (n : ℕ) → IsOffsetOf (number (pos n)) (int32 n)
int32-IsOffsetOf n = elim (fits_or n) [
  | inl small ↦ inl (rw (int32-small n small) tt)
  | inr large ↦ inr (n, refl, large, refl)
]

offset-Sound : (l o : Param) (x : ℤ) → IsLimitOf l x → Sound l o (paged_at x (offset_of o))
offset-Sound l absent x hx = (hx, inl tt)
offset-Sound l malformed x hx = tt
offset-Sound l (number (negsuc n)) x hx = tt
offset-Sound l (number (pos n)) x hx = (hx, int32-IsOffsetOf n)

page-Sound : (l o : Param) → Sound l o (parse_pagination l o)
unfolding parse_pagination
page-Sound absent o = offset-Sound absent o (pos 20) (inl (omega arith, omega arith))
page-Sound malformed o = tt
page-Sound (number (negsuc n)) o = tt
page-Sound (number (pos zero)) o = tt
page-Sound (number (pos (suc n))) o =
    offset-Sound (number (pos (suc n))) o _ (int32-IsLimitOf (suc n) (omega arith))

Sound-paged :
    (l o : Param) (x y : ℤ) (r : Paging)
    → Sound l o r
    → r ≡ paged x y
    → IsLimitOf l x × IsOffsetOf o y
Sound-paged l o x y r h e = rw e at h

-- The limit of a page lies between 1 and 100 and its offset is not negative, unless the number that is
-- given for it does not fit 32 bits: then the limit and the offset are what its low 32 bits stand for, as
-- a signed number, and a limit that has become negative passes the test for the largest one.
pub parse_pagination-bounds :
    (limit offset : Param) (x y : ℤ)
    → parse_pagination limit offset ≡ paged x y
    → IsLimitOf limit x × IsOffsetOf offset y
parse_pagination-bounds limit offset x y e =
    Sound-paged limit offset x y (parse_pagination limit offset) (page-Sound limit offset) e

-- A limit that does not fit, of 32 bits whose highest is set, becomes a negative limit, which passes
-- the test for the largest one.
pub parse_pagination-wraps :
    (n : ℕ)
    → two_31 ≤ n
    → n < two_32
    → parse_pagination (number (pos n)) absent ≡ paged (negsuc (two_32 - n - 1)) (pos 0)
unfolding parse_pagination
parse_pagination-wraps zero h h' = absurd (omega arith)
parse_pagination-wraps (suc n) h h' = rw (int32-large (suc n) h h') refl
