-- ===== src/Orders/Replay.antt =====
-- A second request with the same idempotency key.
use doorbust.Base.{
  ℕ, String, false, ◌||◌, ◌≡◌, refl, Option, none, some, str_eq, if◌then◌else◌, find, ◌==◌,
  Bool-cases, Option-cases, inl, inr,
}
use doorbust.Store.{
  Db, Order, OrderIdempotency, Result, ok, err, no_rows, idempotency_key_reused,
  reserve_in_progress,
}
use doorbust.Session.{World, call, fail, attempt, ◌>>=◌}
use doorbust.Session.Calm.{calm, idle}
use doorbust.Queries.KeyRows.{claim_idempotency_key, find_idempotency_key, has_key}
use doorbust.Queries.OrderRows.{find_order_by_id_plain}
use doorbust.Orders.Strategies.{ReserveParams, Strategy}
use doorbust.Orders.Idempotency.{
  idempotent_reserve, after_claim, replay, replay_found, replay_order,
}

-- What is known of the key says it all: another request has it, it is in use, or its order.
abbrev or_no_rows : Option Order → Result Order
or_no_rows none = err no_rows
or_no_rows (some o) = ok o

abbrev pub recorded : Db → Option ℕ → Result Order
recorded db none = err reserve_in_progress
recorded db (some order_id) = or_no_rows (find (λ o. o.id == order_id) db.orders)

abbrev pub replayed : Db → String → OrderIdempotency → Result Order
replayed db hash k =
    if str_eq k.request_hash hash then recorded db k.order_id else err idempotency_key_reused

module _ (now nextval : ℕ) (db : Db) (w : World) (same : w.shared ≡ db) where
  replay_order_lem :
      (o : Option ℕ)
      → ((replay_order o (calm now nextval) w).0 ≡ recorded db o)
        × ((replay_order o (calm now nextval) w).1.shared ≡ db)
  unfolding replay_order find_order_by_id_plain call fail
  replay_order_lem none = (refl, same)
  replay_order_lem (some id) = rw same (elim (Option-cases (find (λ o. o.id == id) db.orders)) [
    | inl e ↦ rw e (refl, refl)
    | inr (o, e) ↦ rw e (refl, refl)
  ])

  replay_found_lem :
      (hash : String) (k : OrderIdempotency)
      → ((replay_found hash (ok k) (calm now nextval) w).0 ≡ replayed db hash k)
        × ((replay_found hash (ok k) (calm now nextval) w).1.shared ≡ db)
  unfolding replay_found fail
  replay_found_lem hash k = elim (Bool-cases (str_eq k.request_hash hash)) [
    | inl e ↦ rw e (replay_order_lem k.order_id)
    | inr e ↦ rw e (refl, same)
  ]

-- Once a caller's key is taken, asking again with it reserves nothing, whatever the arm is: it
-- changes nothing and answers with the order that the key has led to, with "in progress" where there
-- is none yet, and with "reused" where the key was taken for another product. Here caller and key are
-- not empty, and nothing else happens meanwhile.
pub idempotent_reserve-replay :
    (request_hash : ℕ → String) (inner : Strategy) (p : ReserveParams) (now nextval : ℕ) (db : Db)
    (k : OrderIdempotency)
    → (str_eq p.idempotency_key "" || str_eq p.claims.subject "") ≡ false
    → find (has_key p.claims.subject p.idempotency_key) db.idempotency ≡ some k
    → ((idempotent_reserve request_hash inner p (calm now nextval) (idle db)).0
        ≡ replayed db (request_hash p.product_id) k)
      × ((idempotent_reserve request_hash inner p (calm now nextval) (idle db)).1.shared ≡ db)
unfolding idempotent_reserve after_claim replay claim_idempotency_key find_idempotency_key call
    ◌>>=◌ attempt
idempotent_reserve-replay request_hash inner p now nextval db k keyed taken = rw keyed (
    rw taken (
      rw taken (
        replay_found_lem now nextval db
          (record { shared = db; view = db; aborted = false; at = 2; ids = λ _. none }) refl
          (request_hash p.product_id) k)))
