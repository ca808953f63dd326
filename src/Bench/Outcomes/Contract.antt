-- ===== src/Bench/Outcomes/Contract.antt =====
-- How the generator reads the answers of POST /orders.
use doorbust.Base.{ℕ, suc, String, none, some, ◌≡◌, refl}
use doorbust.Store.{
  Order, Result, ok, err, no_rows, forbidden, out_of_stock, order_not_pending,
  idempotency_key_reused, reserve_in_progress,
}
use doorbust.Session.{World, Env, pure, attempt, ◌>>=◌}
use doorbust.Auth.{Claims}
use doorbust.Orders.Strategies.{Strategy}
use doorbust.Orders.Service.{create_order}
use doorbust.Orders.Handler.{pos, order_error, code_text}
use doorbust.Orders.Handler.Routes.{
  Reply, sent, rejected, OrderResponse, from_order, written, reply, create_order_route,
}
use doorbust.Bench.Outcomes
use doorbust.Bench.Outcomes.{Outcome, classify_response}

-- The outcome of a reply.
abbrev pub classified {ℓ} : {A : Type ℓ} → Reply A → Outcome
classified (sent status body) = classify_response status none
classified (rejected status code) = classify_response status (some (code_text code))

-- What a reservation's end is to count as.
abbrev pub outcome_of {ℓ} : {A : Type ℓ} → Result A → Outcome
outcome_of (ok a) = Outcomes.reserved
outcome_of (err out_of_stock) = Outcomes.out_of_stock
outcome_of (err no_rows) = Outcomes.not_found
outcome_of (err forbidden) = Outcomes.unauthorized
outcome_of (err order_not_pending) = Outcomes.conflict_other
outcome_of (err idempotency_key_reused) = Outcomes.conflict_other
outcome_of (err reserve_in_progress) = Outcomes.conflict_other
outcome_of (err e) = Outcomes.server_error

written-classified :
    (f : Order → OrderResponse) (r : Result Order) → classified (written 201 f r) ≡ outcome_of r
unfolding written order_error classify_response
written-classified f (ok o) = refl
written-classified f (err out_of_stock) = refl
written-classified f (err no_rows) = refl
written-classified f (err forbidden) = refl
written-classified f (err order_not_pending) = refl
written-classified f (err idempotency_key_reused) = refl
written-classified f (err reserve_in_progress) = refl
written-classified f (err e) = refl

-- The generator counts the answer to a well-formed POST /orders of a known caller as a reservation
-- just where the service has reserved, as out of stock just where the service has found no free unit,
-- and as a server error just where the service has failed by an error that the contract does not name.
pub create_order_route-classified :
    (reserve : Strategy) (ttl : ℕ) (claims : Claims) (key : String) (n : ℕ) (env : Env) (w : World)
    → (answer : Reply OrderResponse) × ((create_order_route reserve ttl
          (some claims)
          key
          (some (pos (suc n)))
          env
          w).0
        ≡ ok answer)
      × (classified answer
          ≡ outcome_of
              (create_order reserve ttl
                (record { product_id = suc n; claims = claims; idempotency_key = key })
                env
                w).0)
unfolding create_order_route reply ◌>>=◌ attempt pure
create_order_route-classified reserve ttl claims key n env w =
    let r =
      (create_order reserve ttl
        (record { product_id = suc n; claims = claims; idempotency_key = key }) env w).0 in
    (written 201 (λ o. from_order o "") r, refl, written-classified (λ o. from_order o "") r)
