-- ===== src/Products.antt =====
-- internal/products/service.go: the storefront's reads, and the sale that a vendor adds.
pub mod Creation
pub mod Routes
use doorbust.Base.{ℕ, String, List}
use doorbust.Store.{Product, Stock}
use doorbust.Session.{M, pure, ◌>>=◌, ◌>>◌, pool, tx, call, commit, in_transaction}
use doorbust.Queries.Pages.{list_products as select_products}
use doorbust.Queries.ProductRows.{
  StockedProduct, stocked, find_product_by_id, create_product as insert_product, create_stock,
}

pub record CreateProductParams : Type 0 where
  pub name : String
  pub price_in_cents : ℕ
  pub start_at : ℕ
  pub quantity : ℕ

unfoldable pub list_products : ℕ → ℕ → M (List StockedProduct)
list_products limit offset = call pool (select_products limit offset)

unfoldable pub get_product : ℕ → M StockedProduct
get_product id = call pool (find_product_by_id id)

-- A product and its row of stock are inserted together.
unfoldable pub create_product : CreateProductParams → M StockedProduct
create_product params = in_transaction do
  product ← call tx (
      insert_product (record {
        name = params.name;
        price_in_cents = params.price_in_cents;
        start_at = params.start_at;
      }))
  stock ← call tx (create_stock (record { product_id = product.id; quantity = params.quantity }))
  commit
  pure (stocked product stock)
