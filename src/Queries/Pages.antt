-- ===== src/Queries/Pages.antt =====
-- The paged reads: ListOrdersByCustomer and ListProducts.
pub mod Bounds
use doorbust.Base.{
  ℕ, zero, suc, ◌-◌, String, Bool, true, false, not, Option, none, some, List, [], ◌∷◌, ◌&&◌, ◌||◌,
  ltb, leb, ◌==◌, if◌then◌else◌, find, keep, take,
}
use doorbust.Store.{Db, Order, Product, Stock, Result, ok}
use doorbust.Queries.Turns.{Query}
use doorbust.Queries.ProductRows.{StockedProduct, stocked}

module _ {A : Type 0} where
  -- ORDER BY, with the rows that are equal in it left in the order of the table.
  unfoldable pub insert_by : (A → A → Bool) → A → List A → List A
  insert_by before x [] = x ∷ []
  insert_by before x (y ∷ ys) = if before y x then y ∷ insert_by before x ys else x ∷ y ∷ ys

  unfoldable pub sort_by : (A → A → Bool) → List A → List A
  unfolding insert_by
  sort_by before [] = []
  sort_by before (x ∷ xs) = insert_by before x (sort_by before xs)

  abbrev pub drop : ℕ → List A → List A
  drop zero xs = xs
  drop (suc n) [] = []
  drop (suc n) (x ∷ xs) = drop n xs

  -- LIMIT … OFFSET …
  abbrev pub page : ℕ → ℕ → List A → List A
  page limit offset xs = take limit (drop offset xs)

-- SELECT o.*, p.name, p.price_in_cents
pub record ListedOrder : Type 0 where
  pub order : Order
  pub product_name : String
  pub price_in_cents : ℕ

-- JOIN products p ON p.id = o.product_id
abbrev with_product : Order → Option Product → List ListedOrder → List ListedOrder
with_product o none rest = rest
with_product o (some p) rest =
    record { order = o; product_name = p.name; price_in_cents = p.price_in_cents } ∷ rest

unfoldable pub listed_orders : List Product → List Order → List ListedOrder
listed_orders products [] = []
listed_orders products (o ∷ os) =
    with_product o (find (λ p. p.id == o.product_id) products) (listed_orders products os)

-- created_at DESC
abbrev pub is_newer : ListedOrder → ListedOrder → Bool
is_newer a b = ltb b.order.created_at a.order.created_at

unfoldable pub list_orders_by_customer : ℕ → ℕ → ℕ → Query (List ListedOrder)
list_orders_by_customer customer_id limit offset turn db = (
  ok (
      page limit offset (
        sort_by is_newer
          (listed_orders db.products (keep (λ o. o.customer_id == customer_id) db.orders)))),
  db,
)

abbrev with_stock : Product → Option Stock → List StockedProduct → List StockedProduct
with_stock p none rest = rest
with_stock p (some s) rest = stocked p s ∷ rest

unfoldable pub listed_products : List Stock → List Product → List StockedProduct
listed_products stock [] = []
listed_products stock (p ∷ ps) =
    with_stock p (find (λ s. s.product_id == p.id) stock) (listed_products stock ps)

-- ORDER BY (quantity - num_reserved <= 0), start_at ASC: false comes before true.
abbrev pub is_sold_out : StockedProduct → Bool
is_sold_out p = leb p.quantity p.num_reserved

abbrev pub is_sooner : StockedProduct → StockedProduct → Bool
is_sooner a b =
    not (is_sold_out a) && is_sold_out b
    || (not (is_sold_out a) || is_sold_out b) && ltb a.product.start_at b.product.start_at

unfoldable pub list_products : ℕ → ℕ → Query (List StockedProduct)
list_products limit offset turn db =
    (ok (page limit offset (sort_by is_sooner (listed_products db.stock db.products))), db)
