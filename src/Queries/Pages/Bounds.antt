-- ===== src/Queries/Pages/Bounds.antt =====
-- A page holds what it may: no more rows than the limit, and rows of the caller only.
use doorbust.Base.{
  ℕ, zero, suc, ◌≤◌, Bool, ◌≡◌, refl, List, [], ◌∷◌, length, keep, take, All, All-take, arith,
  Bool-cases, inl, inr, ◌==◌, ==→eq, Option, none, some,
}
use doorbust.Store.{Db, Order, Product, ok}
use doorbust.Queries.Turns.{Turn}
use doorbust.Queries.Pages.{
  insert_by, sort_by, drop, ListedOrder, listed_orders, is_newer, list_orders_by_customer,
  with_product,
}

module _ {A : Type 0} where
  length-take : (n : ℕ) (xs : List A) → length (take n xs) ≤ n
  length-take zero xs = omega arith
  length-take (suc n) [] = omega arith
  length-take (suc n) (x ∷ xs) = omega (arith, length-take n xs)

  All-drop : (P : A → Type 0) (n : ℕ) (xs : List A) → All P xs → All P (drop n xs)
  All-drop P zero xs a = a
  All-drop P (suc n) [] a = tt
  All-drop P (suc n) (x ∷ xs) a = All-drop P n xs a.1

  All-insert_by :
      (P : A → Type 0) (before : A → A → Bool) (x : A) (xs : List A)
      → P x
      → All P xs
      → All P (insert_by before x xs)
  unfolding insert_by
  All-insert_by P before x [] h a = (h, tt)
  All-insert_by P before x (y ∷ ys) h a = elim (Bool-cases (before y x)) [
    | inl e ↦ rw e (a.0, All-insert_by P before x ys h a.1)
    | inr e ↦ rw e (h, a)
  ]

  All-sort_by :
      (P : A → Type 0) (before : A → A → Bool) (xs : List A) → All P xs → All P (sort_by before xs)
  unfolding sort_by
  All-sort_by P before [] a = tt
  All-sort_by P before (x ∷ xs) a = All-insert_by P before x _ a.0 (All-sort_by P before xs a.1)

-- An order of this customer.
abbrev pub IsOf : ℕ → ListedOrder → Type 0
IsOf customer_id l = l.order.customer_id ≡ customer_id

module _ (customer_id : ℕ) (products : List Product) where
  with_product-IsOf :
      (o : Order) (p : Option Product) (rest : List ListedOrder)
      → o.customer_id ≡ customer_id
      → All (IsOf customer_id) rest
      → All (IsOf customer_id) (with_product o p rest)
  with_product-IsOf o none rest h a = a
  with_product-IsOf o (some p) rest h a = (h, a)

  listed_orders-IsOf :
      (os : List Order)
      → All
          (IsOf customer_id)
          (listed_orders products (keep (λ o. o.customer_id == customer_id) os))
  unfolding listed_orders
  listed_orders-IsOf [] = tt
  listed_orders-IsOf (o ∷ os) = elim (Bool-cases (o.customer_id == customer_id)) [
    | inl e ↦
        rw e (with_product-IsOf o _ _ (==→eq o.customer_id customer_id e) (listed_orders-IsOf os))
    | inr e ↦ rw e (listed_orders-IsOf os)
  ]

-- A page of a customer's orders is no longer than its limit and holds orders of that customer only;
-- reading it changes nothing.
pub list_orders_by_customer-page :
    (customer_id limit offset : ℕ) (turn : Turn) (db : Db)
    → (page : List ListedOrder) × (list_orders_by_customer customer_id limit offset turn db
        ≡ (ok page, db))
      × (length page ≤ limit)
      × All (IsOf customer_id) page
unfolding list_orders_by_customer
list_orders_by_customer-page customer_id limit offset turn db = (
  _,
  refl,
  length-take limit _,
  All-take (IsOf customer_id) limit _ (
      All-drop (IsOf customer_id) offset _ (
        All-sort_by (IsOf customer_id) is_newer _
          (listed_orders-IsOf customer_id db.products db.orders))),
)
