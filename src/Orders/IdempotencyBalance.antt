-- ===== src/Orders/IdempotencyBalance.antt =====
-- An arm that keeps every product's books in order keeps them so when it is made idempotent.
use doorbust.Base.{ℕ, String, Option, none, some, not, ◌||◌, str_eq}
use doorbust.Store.{Db, Order, OrderIdempotency, Result, ok, err, no_rows, idempotency_key_reused}
use doorbust.Session.{Env, M, pool, attempt, fail, ◌>>=◌}
use doorbust.Session.Rules.{Holds, Post, Holds-pure, Holds-fail, Holds-if, Holds-bind, Holds-weaken}
use doorbust.Orders.Strategies.{ReserveParams, Strategy}
use doorbust.Orders.Idempotency.{
  record_outcome, reserve_and_record, replay_order, replay_found, replay, after_claim,
  idempotent_reserve,
}
use doorbust.Ledger.OtherEffects.{
  claim_idempotency_key-Moves, find_idempotency_key-Moves, complete_idempotency_key-Moves,
  release_idempotency_key-Moves, find_order_by_id_plain-Moves,
}
use doorbust.Ledger.{Account}
use doorbust.Ledger.Actions.{RelyOn, Outside}
use doorbust.Ledger.Quiet.{Keeps, Keeps-call, Holds-attempt, Post-out}
use doorbust.Orders.ReserveBalance.{KeepsOutside}

module _ {env : Env} {p : Account} (rely : RelyOn p env) (inner : Strategy)
    (keeps : (r : ReserveParams) → KeepsOutside p env (inner r)) (base : Db) where
  -- A statement whose outcome is of no account.
  best_effort :
      {A : Type 0} (m : M (Unit {0})) (n : M A)
      → Keeps env (Outside p base) m
      → Keeps env (Outside p base) n
      → Keeps env (Outside p base) (attempt m >>= λ _. n)
  best_effort m n hm hn =
      Holds-bind _ _ _ (Holds-attempt m hm) λ r. Holds-weaken n (Post-out (Outside p base) r) hn

  record_outcome-Keeps :
      (claimed : OrderIdempotency) (r : Result Order)
      → Holds env
          (Post (λ _. Outside p base) (Outside p base) r)
          (record_outcome claimed r)
          (λ _. Outside p base)
          (Outside p base)
  unfolding record_outcome
  record_outcome-Keeps claimed (err e) =
      best_effort _ _
        (Keeps-call rely base pool _
          (release_idempotency_key-Moves p claimed.cognito_sub claimed.idem_key))
        (Holds-fail e (λ _ h. h))
  record_outcome-Keeps claimed (ok order) =
      best_effort _ _
        (Keeps-call rely base pool _
          (complete_idempotency_key-Moves p claimed.cognito_sub claimed.idem_key order.id))
        (Holds-pure order)

  replay_order-Keeps : (o : Option ℕ) → Keeps env (Outside p base) (replay_order o)
  unfolding replay_order
  replay_order-Keeps none = Holds-fail _ (λ _ h. h)
  replay_order-Keeps (some id) = Keeps-call rely base pool _ (find_order_by_id_plain-Moves p id)

  replay_found-Keeps :
      (hash : String) (r : Result OrderIdempotency)
      → Holds env
          (Post (λ _. Outside p base) (Outside p base) r)
          (replay_found hash r)
          (λ _. Outside p base)
          (Outside p base)
  unfolding replay_found
  replay_found-Keeps hash (err no_rows) = Holds-fail _ (λ _ h. h)
  replay_found-Keeps hash (err e) = Holds-fail _ (λ _ h. h)
  replay_found-Keeps hash (ok existing) =
      Holds-if (not (str_eq existing.request_hash hash)) (fail idempotency_key_reused) _
        (λ _. Holds-fail _ (λ _ h. h)) (λ _. replay_order-Keeps existing.order_id)

  after_claim-Keeps :
      (params : ReserveParams) (hash : String) (r : Result OrderIdempotency)
      → Holds env
          (Post (λ _. Outside p base) (Outside p base) r)
          (after_claim inner params hash r)
          (λ _. Outside p base)
          (Outside p base)
  unfolding after_claim reserve_and_record replay
  after_claim-Keeps params hash (ok claimed) =
      Holds-bind _ _ _ (Holds-attempt _ (keeps params base)) (record_outcome-Keeps claimed)
  after_claim-Keeps params hash (err no_rows) =
      Holds-bind _ _ _
        (Holds-attempt _ (
          Keeps-call rely base pool _
            (find_idempotency_key-Moves p params.claims.subject params.idempotency_key)))
        (replay_found-Keeps hash)
  after_claim-Keeps params hash (err e) = Holds-fail e (λ _ h. h)

pub idempotent_reserve-Keeps :
    {env : Env} {p : Account}
    → RelyOn p env
    → (request_hash : ℕ → String) (inner : Strategy)
    → ((r : ReserveParams) → KeepsOutside p env (inner r))
    → (params : ReserveParams) → KeepsOutside p env (idempotent_reserve request_hash inner params)
unfolding idempotent_reserve
idempotent_reserve-Keeps {p = p} rely request_hash inner keeps params base =
    Holds-if (str_eq params.idempotency_key "" || str_eq params.claims.subject "") (inner params) _
      (λ _. keeps params base)
      (λ _.
        Holds-bind _ _ _
          (Holds-attempt _ (Keeps-call rely base pool _ (claim_idempotency_key-Moves p _ _ _)))
          (after_claim-Keeps rely inner keeps base params (request_hash params.product_id)))
