-- ===== src/Orders/Strategies.antt =====
-- How one unit of stock becomes a pending order: the arms of internal/orders/strategy_txn.go and
-- strategy_cte.go, and their choice by name in strategy.go.
use doorbust.Base.{
  ℕ, String, Bool, true, false, Option, none, some, List, [], ◌∷◌, str_eq, if◌then◌else◌,
}
use doorbust.Store.{Stock, Order, Result, ok, err, no_rows, out_of_stock}
use doorbust.Session.{M, pure, fail, attempt, ◌>>=◌, ◌>>◌, pool, tx, call, commit, in_transaction}
use doorbust.Queries.StockRows.{reserve_stock}
use doorbust.Queries.OrderRows.{create_order}
use doorbust.Queries.ProductRows.{StockedProduct, find_product_by_id}
use doorbust.Queries.Reservation.{reserve_and_create_order}
use doorbust.Auth.{Claims}
use doorbust.Customers.{Resolver}

pub record ReserveParams : Type 0 where
  pub product_id : ℕ
  pub claims : Claims
  pub expires_at : ℕ
  pub idempotency_key : String

-- Zero rows from ReserveStock mean that no unit is free.
unfoldable pub or_out_of_stock : Result Stock → M Stock
or_out_of_stock (ok s) = pure s
or_out_of_stock (err no_rows) = fail out_of_stock
or_out_of_stock (err e) = fail e

unfoldable pub reserve : ReserveParams → M Stock
reserve p = attempt (call tx (reserve_stock p.product_id)) >>= or_out_of_stock

unfoldable pub create : ReserveParams → ℕ → StockedProduct → M Order
create p customer_id product = call tx (
    create_order (record {
      customer_id = customer_id;
      product_id = p.product_id;
      total_in_cents = product.price_in_cents;
      expires_at = some p.expires_at;
    }))

-- `reserveLast` says which of the two statements comes first.
unfoldable pub reserve_and_create : Bool → ReserveParams → ℕ → StockedProduct → M Order
reserve_and_create true p customer_id product = do
  order ← create p customer_id product
  reserve p
  commit
  pure order
reserve_and_create false p customer_id product = do
  reserve p
  order ← create p customer_id product
  commit
  pure order

-- txnStrategy.Reserve
unfoldable pub txn_reserve : Resolver → Bool → ReserveParams → M Order
txn_reserve resolve reserve_last p = in_transaction do
  customer_id ← resolve tx p.claims
  product ← call tx (find_product_by_id p.product_id)
  reserve_and_create reserve_last p customer_id product

-- Zero rows mean no such product or no unit free; one more read tells which.
unfoldable pub after_statement : ReserveParams → Result Order → M Order
after_statement p (ok order) = pure order
after_statement p (err no_rows) = do call pool (find_product_by_id p.product_id); fail out_of_stock
after_statement p (err e) = fail e

-- cteStrategy.Reserve
unfoldable pub cte_reserve : Resolver → ReserveParams → M Order
cte_reserve resolve p = do
  customer_id ← resolve pool p.claims
  order ← attempt (
      call pool (
        reserve_and_create_order (record {
          customer_id = customer_id;
          product_id = p.product_id;
          expires_at = some p.expires_at;
        })))
  after_statement p order

abbrev pub Strategy : Type 0
Strategy = ReserveParams → M Order

abbrev pub strategy_baseline : String
strategy_baseline = "baseline"

abbrev pub strategy_reserve_last : String
strategy_reserve_last = "reserve-last"

abbrev pub strategy_cte : String
strategy_cte = "cte"

abbrev pub strategy_names : List String
strategy_names = strategy_baseline ∷ strategy_reserve_last ∷ strategy_cte ∷ []

-- A name that is not known is an error; the empty one is the default.
unfoldable pub strategy_by_name : String → Resolver → Option Strategy
strategy_by_name name resolve =
    if str_eq name ""
    then some (txn_reserve resolve false)
    else if str_eq name strategy_baseline
    then some (txn_reserve resolve false)
    else if str_eq name strategy_reserve_last
    then some (txn_reserve resolve true)
    else if str_eq name strategy_cte
    then some (cte_reserve resolve)
    else none
