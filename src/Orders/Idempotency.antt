-- ===== src/Orders/Idempotency.antt =====
-- internal/orders/strategy_idempotent.go: an arm made safe to ask for again.
use doorbust.Base.{ℕ, String, Option, none, some, ◌||◌, not, str_eq, if◌then◌else◌}
use doorbust.Store.{
  Order, OrderIdempotency, Result, ok, err, no_rows, idempotency_key_reused, reserve_in_progress,
}
use doorbust.Session.{M, pure, fail, attempt, ◌>>=◌, ◌>>◌, pool, call}
use doorbust.Queries.OrderRows.{find_order_by_id_plain}
use doorbust.Queries.KeyRows.{
  claim_idempotency_key, find_idempotency_key, complete_idempotency_key, release_idempotency_key,
}
use doorbust.Orders.Strategies.{ReserveParams, Strategy}

-- A key is tried again after a failure; the release is best effort, and so is the record of a
-- success.
unfoldable pub record_outcome : OrderIdempotency → Result Order → M Order
record_outcome claimed (err e) = do
  attempt (call pool (release_idempotency_key claimed.cognito_sub claimed.idem_key))
  fail e
record_outcome claimed (ok order) = do
  attempt (call pool (complete_idempotency_key claimed.cognito_sub claimed.idem_key order.id))
  pure order

unfoldable pub reserve_and_record : Strategy → ReserveParams → OrderIdempotency → M Order
reserve_and_record inner p claimed = attempt (inner p) >>= record_outcome claimed

unfoldable pub replay_order : Option ℕ → M Order
replay_order none = fail reserve_in_progress
replay_order (some order_id) = call pool (find_order_by_id_plain order_id)

unfoldable pub replay_found : String → Result OrderIdempotency → M Order
replay_found hash (err no_rows) = fail reserve_in_progress
replay_found hash (err e) = fail e
replay_found hash (ok existing) =
    if not (str_eq existing.request_hash hash)
    then fail idempotency_key_reused
    else replay_order existing.order_id

unfoldable pub replay : ReserveParams → String → M Order
replay p hash =
    attempt (call pool (find_idempotency_key p.claims.subject p.idempotency_key))
    >>= replay_found hash

-- Only the one whose claim came back with a row reserves.
unfoldable pub after_claim : Strategy → ReserveParams → String → Result OrderIdempotency → M Order
after_claim inner p hash (ok claimed) = reserve_and_record inner p claimed
after_claim inner p hash (err no_rows) = replay p hash
after_claim inner p hash (err e) = fail e

-- idempotentStrategy.Reserve; `request_hash` is the hex form of a SHA-256 of the product's id.
unfoldable pub idempotent_reserve : (request_hash : ℕ → String) → Strategy → Strategy
idempotent_reserve request_hash inner p =
    if str_eq p.idempotency_key "" || str_eq p.claims.subject ""
    then inner p
    else (attempt (
          call pool
            (claim_idempotency_key p.claims.subject p.idempotency_key (request_hash p.product_id)))
        >>= after_claim inner p (request_hash p.product_id))
