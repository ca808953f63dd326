-- ===== src/Queries/ProductRows.antt =====
-- The statements on `products`: FindProductByID, CreateProduct, CreateStock.
use doorbust.Base.{ℕ, String, Option, none, some, [], ◌∷◌, ◌++◌, not, ◌==◌, if◌then◌else◌, find}
use doorbust.Store.{
  Db, Product, Stock, Result, ok, err, no_rows, unique_violation, foreign_key_violation,
}
use doorbust.Queries.Turns.{Query, Turn}
use doorbust.Queries.OrderRows.{is_found}

-- SELECT p.*, s.quantity, s.num_reserved: a product with its stock.
pub record StockedProduct : Type 0 where
  pub product : Product
  pub open product use *
  pub quantity : ℕ
  pub num_reserved : ℕ

abbrev pub stocked : Product → Stock → StockedProduct
stocked p s = record { product = p; quantity = s.quantity; num_reserved = s.num_reserved }

-- JOIN stock s ON s.product_id = p.id
abbrev join_stock_row : Db → Product → Option Stock → Result StockedProduct × Db
join_stock_row db p none = (err no_rows, db)
join_stock_row db p (some s) = (ok (stocked p s), db)

abbrev join_stock : Db → Option Product → Result StockedProduct × Db
join_stock db none = (err no_rows, db)
join_stock db (some p) = join_stock_row db p (find (λ s. s.product_id == p.id) db.stock)

unfoldable pub find_product_by_id : ℕ → Query StockedProduct
find_product_by_id id turn db = join_stock db (find (λ p. p.id == id) db.products)

pub record CreateProductParams : Type 0 where
  pub name : String
  pub price_in_cents : ℕ
  pub start_at : ℕ

abbrev pub new_product : CreateProductParams → Turn → Product
new_product p turn = record {
  id = turn.nextval;
  name = p.name;
  price_in_cents = p.price_in_cents;
  created_at = turn.now;
  start_at = p.start_at;
}

unfoldable pub create_product : CreateProductParams → Query Product
create_product p turn db =
    if is_found (find (λ x. x.id == turn.nextval) db.products)
    then (err unique_violation, db)
    else (ok (new_product p turn), record db { products = db.products ++ new_product p turn ∷ [] })

pub record CreateStockParams : Type 0 where
  pub product_id : ℕ
  pub quantity : ℕ

abbrev pub new_stock : CreateStockParams → Stock
new_stock p = record { product_id = p.product_id; quantity = p.quantity; num_reserved = 0 }

-- UNIQUE (product_id), and the reference to products.
unfoldable pub create_stock : CreateStockParams → Query Stock
create_stock p turn db =
    if is_found (find (λ s. s.product_id == p.product_id) db.stock)
    then (err unique_violation, db)
    else if not (is_found (find (λ x. x.id == p.product_id) db.products))
    then (err foreign_key_violation, db)
    else (ok (new_stock p), record db { stock = db.stock ++ new_stock p ∷ [] })
