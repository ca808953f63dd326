-- ===== src/Ledger/ExpiryEffects.antt =====
-- What ExpireOrders does to the accounts of a product: each order that it returns held a unit.
use doorbust.Base.{
  ℕ, ◌+◌, ◌≡◌, refl, true, not, List, [], ◌∷◌, ◌&&◌, ◌==◌, if◌then◌else◌, inl, inr, Bool-cases, sum,
  sum-add, repeats, has_key, sum-has_key-le, All, All-IsRow, IsRow, All-keep, All-take, All-weaken,
  arith,
}
use doorbust.Store.{Order, is_live}
use doorbust.Queries.Turns.{Turn}
use doorbust.Queries.Expiry.{
  is_due, id_in, insert_by_expiry, sort_by_expiry, picked_orders, expire_rows, expire_orders,
  expires_before,
}
use doorbust.Ledger.{Account, live_of, sold_of}
use doorbust.Ledger.Effects.{Moves}
use doorbust.Ledger.OrderEffects.{of_order}

-- A row of the table that still holds its unit.
abbrev pub IsHolding : List Order → Order → Type 0
IsHolding orders o = (is_live o.status ≡ true) × IsRow orders o

module _ (P : Order → Type 0) where
  insert_by_expiry-All :
      (o : Order) (xs : List Order) → P o → All P xs → All P (insert_by_expiry o xs)
  unfolding insert_by_expiry
  insert_by_expiry-All o [] h a = (h, tt)
  insert_by_expiry-All o (x ∷ xs) h a = elim (Bool-cases (expires_before o x)) [
    | inl e ↦ rw e (h, a)
    | inr e ↦ rw e (a.0, insert_by_expiry-All o xs h a.1)
  ]

  sort_by_expiry-All : (xs : List Order) → All P xs → All P (sort_by_expiry xs)
  unfolding sort_by_expiry
  sort_by_expiry-All [] a = tt
  sort_by_expiry-All (x ∷ xs) a =
      insert_by_expiry-All x (sort_by_expiry xs) a.0 (sort_by_expiry-All xs a.1)

is_due-live : (turn : Turn) (o : Order) → is_due turn o ≡ true → is_live o.status ≡ true
is_due-live turn o h = ground arith

pub picked_orders-IsHolding :
    (limit : ℕ) (turn : Turn) (orders : List Order)
    → All (IsHolding orders) (picked_orders limit turn orders)
unfolding picked_orders
picked_orders-IsHolding limit turn orders = All-take _ limit _ (
    sort_by_expiry-All _ _ (
      All-weaken _ (λ o h. (is_due-live turn o h.0, h.1))
        (All-keep _ (is_due turn) orders (All-IsRow orders))))

abbrev live_key : ℕ → Order → ℕ
live_key id o = if o.id == id && is_live o.status then 1 else 0

abbrev dead_key : ℕ → Order → ℕ
dead_key id o = if o.id == id && not (is_live o.status) then 1 else 0

-- Two rows with one id are one row, so they agree on whether the unit is held.
same_id_live :
    (orders : List Order) (x o : Order)
    → repeats (λ r. r.id) orders ≡ 0
    → IsHolding orders x
    → IsRow orders o
    → x.id ≡ o.id
    → is_live o.status ≡ true
same_id_live orders x o unique (holds, at) row same = elim (Bool-cases (is_live o.status)) [
  | inl h ↦ h
  | inr dead ↦ absurd (
      ground (
        arith,
        at (live_key o.id),
        row (dead_key o.id),
        sum-add (live_key o.id) (dead_key o.id) (has_key (λ r. r.id) o.id) orders
            (λ r. ground arith),
        sum-has_key-le (λ r. r.id) o.id orders,
      ))
]

pub id_in-live :
    (orders picked : List Order) (o : Order)
    → repeats (λ r. r.id) orders ≡ 0
    → All (IsHolding orders) picked
    → IsRow orders o
    → id_in picked o.id ≡ true
    → is_live o.status ≡ true
id_in-live orders [] o unique hold row h = cc
id_in-live orders (x ∷ xs) o unique hold row h = elim (Bool-cases (o.id == x.id)) [
  | inl same ↦ same_id_live orders x o unique hold.0 row (ground arith)
  | inr other ↦ id_in-live orders xs o unique hold.1 row (ground arith)
]

module _ (p : Account) (picked : List Order) where
  expire_rows-balance :
      (os : List Order)
      → All (λ o. id_in picked o.id ≡ true → is_live o.status ≡ true) os
      → let (returned, rows) = expire_rows picked os in
        (sum (live_of p.product) os ≡ sum (live_of p.product) rows + sum (of_order p) returned)
        × (sum (sold_of p.product) rows ≡ sum (sold_of p.product) os)
        × ((k : ℕ) → sum (has_key (λ r. r.id) k) rows ≡ sum (has_key (λ r. r.id) k) os)
        × (repeats (λ r. r.id) rows ≡ repeats (λ r. r.id) os)
  unfolding expire_rows sum repeats
  expire_rows-balance [] a = (refl, refl, λ k. refl, refl)
  expire_rows-balance (o ∷ os) a =
      let (l, s, k, r) = expire_rows-balance os a.1 in
      elim (Bool-cases (id_in picked o.id)) [
        | inl hit ↦
            let held = a.0 hit in
            rw hit (ground arith, ground arith, λ j. ground (arith, k j), ground (arith, k o.id))
        | inr miss ↦
            rw miss (ground arith, ground arith, λ j. ground (arith, k j), ground (arith, k o.id))
      ]

pub expire_orders-Moves :
    (p : Account) (limit : ℕ)
    → Moves p
        (expire_orders limit)
        (λ _. 0)
        (λ returned. sum (of_order p) returned)
        (λ _. 0)
        (λ _. 0)
unfolding expire_orders
expire_orders-Moves p limit = record {
  on = λ turn db sound.
      let unique : repeats (λ r. r.id) db.orders ≡ 0 = omega arith in
      let picked = picked_orders limit turn db.orders in
      let (l, s, k, r) = expire_rows-balance p picked db.orders (
        All-weaken _
          (λ o row h.
            id_in-live db.orders picked o unique (picked_orders-IsHolding limit turn db.orders) row
              h)
          (All-IsRow db.orders)) in
      record { balance = omega arith; supply = omega arith; listed = refl; sound = omega arith };
}
