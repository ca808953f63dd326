-- ===== src/Tests/Storefront.antt =====
-- Pages, new sales and the parameters of a list.
use doorbust.Base.{
  ◌+◌, ◌-◌, ◌≤◌, ◌==◌, ◌≡◌, refl, List, length, All, if◌then◌else◌, Bool-cases, inl, inr, arith,
}
use doorbust.Store.{ok, err, connection_lost}
use doorbust.Queries.Turns.{refused, fine}
use doorbust.Queries.Pages.{ListedOrder, list_orders_by_customer}
use doorbust.Queries.Pages.Bounds.{IsOf, list_orders_by_customer-page}
use doorbust.Queries.ProductRows.{
  stocked, new_product, create_product as insert_product, create_stock,
}
use doorbust.Session.{Env, commit, in_transaction, call, ◌>>=◌}
use doorbust.Session.Calm.{calm, calm_turn, idle}
use doorbust.Session.Atomic.{IsAlone}
use doorbust.Ledger.{quantity, reserved}
use doorbust.Products.{CreateProductParams, create_product}
use doorbust.Products.Creation.{row_params, created, create_product-created}
use doorbust.Orders.Handler.{pos, negsuc, absent, number, paged, parse_pagination, int32, two_32}
use doorbust.Orders.Handler.Limits.{
  IsLimitOf, IsOffsetOf, parse_pagination-bounds, parse_pagination-wraps,
}
use doorbust.Tests.Shop.{shop}

list_orders_by_customer-page_example :
    (page : List ListedOrder) × (list_orders_by_customer 1 20 0 (calm_turn 50 50) shop
      ≡ (ok page, shop))
    × (length page ≤ 20)
    × All (IsOf 1) page
list_orders_by_customer-page_example = list_orders_by_customer-page 1 20 0 (calm_turn 50 50) shop

abbrev lamps : CreateProductParams
lamps = record { name = "lamp"; price_in_cents = 900; start_at = 70; quantity = 12 }

-- The COMMIT is refused.
abbrev failing : Env
failing n = record (calm_turn 50 8) { fault = if n == 3 then refused else fine }

failing-IsAlone : IsAlone failing
failing-IsAlone = record {
  nobody = λ n db. refl;
  answered = λ n. elim (Bool-cases (n == 3)) [ inl e ↦ rw e refl | inr e ↦ rw e refl ];
}

create_product-fails : (create_product lamps failing (idle shop)).0 ≡ err connection_lost
unfolding create_product insert_product create_stock in_transaction call commit ◌>>=◌
create_product-fails = refl

create_product-created_example :
    ((create_product lamps (calm 50 8) (idle shop)).0
      ≡ ok (
          stocked
            (new_product (row_params lamps) (calm_turn 50 8))
            (record { product_id = 8; quantity = 12; num_reserved = 0 })))
    × ((create_product lamps (calm 50 8) (idle shop)).1.shared ≡ created lamps 50 8 shop)
    × (quantity 8 (created lamps 50 8 shop) ≡ quantity 8 shop + 12)
    × (reserved 8 (created lamps 50 8 shop) ≡ reserved 8 shop)
create_product-created_example = create_product-created lamps 50 8 shop refl refl

parsed : parse_pagination (number (pos 500)) (number (pos 40)) ≡ paged (pos 100) (pos 40)
unfolding parse_pagination int32
parsed = refl

parse_pagination-bounds_example :
    IsLimitOf (number (pos 500)) (pos 100) × IsOffsetOf (number (pos 40)) (pos 40)
parse_pagination-bounds_example =
    parse_pagination-bounds (number (pos 500)) (number (pos 40)) (pos 100) (pos 40) parsed

wrapped :
    parse_pagination (number (pos 3000000000)) absent
    ≡ paged (negsuc (two_32 - 3000000000 - 1)) (pos 0)
wrapped = parse_pagination-wraps 3000000000 (omega arith) (omega arith)
