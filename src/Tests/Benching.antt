-- ===== src/Tests/Benching.antt =====
-- The benchmark's reading of a small run.
use doorbust.Base.{
  ℕ, ◌*◌, ◌+◌, ◌≤◌, ◌<◌, true, ◌≡◌, refl, update_first, zero, suc, some, List, [], ◌∷◌, sum, length,
  arith,
}
use doorbust.Store.{Db, Stock, ok}
use doorbust.Ledger.{rows, quantity, sold}
use doorbust.Session.{Env, ◌>>=◌, in_transaction, call, commit}
use doorbust.Queries.Expiry.{expire_orders}
use doorbust.Queries.StockRows.{release_stock}
use doorbust.Session.Calm.{calm, idle}
use doorbust.Ledger.Calm.{calm-RelyOn}
use doorbust.Orders.Service.{create_order, sweep_expired, after_expire, release_each}
use doorbust.Orders.Handler.{pos}
use doorbust.Orders.Handler.Routes.{Reply, OrderResponse, create_order_route}
use doorbust.Program.{Request, sweep, serve, history}
use doorbust.Bench.Report.{Invariants, trusted_percentile_for, trust_p99}
use doorbust.Bench.Outcomes.Contract.{classified, outcome_of, create_order_route-classified}
use doorbust.Bench.Recorder.{percentiles_of}
use doorbust.Bench.Recorder.Quantiles.{
  above, AreQuantiles, percentiles_of-AreQuantiles, trusted_percentile_for-contaminated,
}
use doorbust.Bench.Inventory.{check, order_count_fits}
use doorbust.Bench.Inventory.UnderLoad.{check-history}
use doorbust.Tests.Shop.{ann, shop, config, arm}
use doorbust.Tests.Books.{booted, shop-IsBalanced}

create_order_route-classified_example :
    (answer : Reply OrderResponse) × ((create_order_route arm 30
        (some ann)
        "k1"
        (some (pos 7))
        (calm 40 11)
        (idle shop)).0
      ≡ ok answer)
    × (classified answer
        ≡ outcome_of
            (create_order arm 30
              (record { product_id = 7; claims = ann; idempotency_key = "k1" })
              (calm 40 11)
              (idle shop)).0)
create_order_route-classified_example =
    create_order_route-classified arm 30 ann "k1" 6 (calm 40 11) (idle shop)

percentiles_of-AreQuantiles_example :
    AreQuantiles (30 ∷ 10 ∷ 20 ∷ []) (percentiles_of (30 ∷ 10 ∷ 20 ∷ []))
percentiles_of-AreQuantiles_example = percentiles_of-AreQuantiles 30 (10 ∷ 20 ∷ [])

-- n samples of a lag.
abbrev repeated : ℕ → ℕ → List ℕ
repeated zero lag = []
repeated (suc n) lag = lag ∷ repeated n lag

-- One late send, of a hundred.
abbrev lags : List ℕ
lags = 2000000 ∷ repeated 99 1000

one_late : 100 * above 1000000 lags ≡ length lags
unfolding sum
one_late = refl

trusted_percentile_for-contaminated_example :
    (trusted_percentile_for (record { part = 1; whole = 100 }) ≡ trust_p99)
    × (1000000 < (percentiles_of lags).p99)
unfolding sum
trusted_percentile_for-contaminated_example =
    trusted_percentile_for-contaminated 2000000 (repeated 99 1000) 1000000 one_late

-- Ann's order lapses.
abbrev evening : List (Env × Request)
evening = (calm 100 12, sweep) ∷ []

abbrev after : Db
after = (history config arm evening (idle shop)).shared

in_supply : quantity 7 shop + sold 7 shop ≤ 2
unfolding sum
in_supply = omega arith

abbrev left : Stock
left = record { product_id = 7; quantity = 2; num_reserved = 0 }

swept : (after.stock ≡ left ∷ []) × (length after.orders ≡ 1)
unfolding history serve ◌>>=◌ sweep_expired in_transaction call expire_orders after_expire
    release_each release_stock update_first commit
swept = (refl, refl)

one_stocked : rows 7 shop ≡ 1
unfolding sum
one_stocked = refl

one_order : order_count_fits 1 0 (length after.orders) ≡ true
one_order = rw swept.1 refl

check-history_example :
    (i : Invariants) × ((check
        (7 ∷ [])
        2
        1
        0
        (calm 200 60)
        (history config arm evening (idle shop))).0
      ≡ ok i)
    × (i.passed ≡ true)
check-history_example =
    check-history config arm booted evening (idle shop) 2 (7 ∷ []) 1 0 200 60
      ((calm-RelyOn 100 12, tt), tt)
      (record { stocked = one_stocked; balanced = shop-IsBalanced; supply = in_supply }, tt)
      one_order
