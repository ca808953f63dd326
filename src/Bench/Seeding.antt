-- ===== src/Bench/Seeding.antt =====
-- bench/internal/workload/seed.go: the database before the load. The names of the products, with their
-- numbers, are a function.
pub mod Fresh
pub mod Seeded
use doorbust.Base.{ℕ, zero, suc, ◌+◌, ◌-◌, String, Option, some, List, [], ◌∷◌}
use doorbust.Store.{Db, ok}
use doorbust.Queries.Turns.{Query}
use doorbust.Session.{M, pure, ◌>>=◌, ◌>>◌, pool, call, time_now}
use doorbust.Queries.ProductRows.{create_product, create_stock}
use doorbust.Queries.CustomerRows.{link_customer}

-- TRUNCATE … CASCADE: order_idempotency refers to orders.
unfoldable pub truncate : Query (Unit {0})
truncate turn db = (
  ok tt,
  record { products = []; stock = []; customers = []; orders = []; idempotency = []; events = [] },
)

unfoldable pub reset : M (Unit {0})
reset = call pool truncate

abbrev pub hour : ℕ
hour = 3600000000000

-- One product with its stock; the plan's quantity is not negative, as its shape has it.
unfoldable pub seed_product : String → ℕ → ℕ → M ℕ
seed_product name start_at quantity = do
  product ←
      call pool
        (create_product (record { name = name; price_in_cents = 1999; start_at = start_at }))
  call pool (create_stock (record { product_id = product.id; quantity = quantity }))
  pure product.id

-- The products that are left, from the i-th on.
unfoldable pub seed_from : (ℕ → String) → ℕ → ℕ → ℕ → ℕ → M (List ℕ)
seed_from name start_at quantity i zero = pure []
seed_from name start_at quantity i (suc n) = do
  id ← seed_product (name i) start_at quantity
  ids ← seed_from name start_at quantity (suc i) n
  pure (id ∷ ids)

unfoldable pub seed_products : (ℕ → String) → ℕ → ℕ → M (List ℕ)
seed_products name skus quantity = do now ← time_now; seed_from name (now - hour) quantity 0 skus

pub record Buyer : Type 0 where
  pub subject : String
  pub email : String
  pub token : String

unfoldable pub seed_customers : List Buyer → M (Unit {0})
seed_customers [] = pure tt
seed_customers (b ∷ bs) = do call pool (link_customer b.email (some b.subject)); seed_customers bs
