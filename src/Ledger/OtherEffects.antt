-- ===== src/Ledger/OtherEffects.antt =====
-- The statements that leave `stock` and `orders` alone, and the statement that does both halves of
-- a reservation.
use doorbust.Base.{ℕ, String, Option, arith}
use doorbust.Queries.Turns.{Query}
use doorbust.Queries.OrderRows.{
  find_order_by_id, find_order_by_payment_intent_id, find_order_by_id_plain,
}
use doorbust.Queries.Pages.{list_orders_by_customer, list_products}
use doorbust.Queries.ProductRows.{find_product_by_id}
use doorbust.Queries.CustomerRows.{find_customer_by_sub, update_customer_email, link_customer}
use doorbust.Queries.KeyRows.{
  claim_idempotency_key, find_idempotency_key, complete_idempotency_key, release_idempotency_key,
}
use doorbust.Queries.EventRows.{
  claim_next_stripe_event, mark_stripe_event_processed, mark_stripe_event_failed,
  InsertStripeEventParams, insert_stripe_event, latest_stripe_event_created_at,
}
use doorbust.Ledger.{Account}
use doorbust.Ledger.Effects.{Moves}

-- A statement that leaves the accounts as they are, whether it returns a row or not.
abbrev pub Quiet : {A : Type 0} → Account → Query A → Type 0
Quiet p q = Moves p q (λ _. 0) (λ _. 0) (λ _. 0) (λ _. 0)

module _ (p : Account) where
  pub find_order_by_id-Moves : (id : ℕ) → Quiet p (find_order_by_id id)
  unfolding find_order_by_id
  find_order_by_id-Moves id = record { on = λ turn db sound. ground arith }

  pub find_order_by_payment_intent_id-Moves :
      (intent : String) → Quiet p (find_order_by_payment_intent_id intent)
  unfolding find_order_by_payment_intent_id
  find_order_by_payment_intent_id-Moves intent = record { on = λ turn db sound. ground arith }

  pub find_order_by_id_plain-Moves : (id : ℕ) → Quiet p (find_order_by_id_plain id)
  unfolding find_order_by_id_plain
  find_order_by_id_plain-Moves id = record { on = λ turn db sound. ground arith }

  pub find_product_by_id-Moves : (id : ℕ) → Quiet p (find_product_by_id id)
  unfolding find_product_by_id
  find_product_by_id-Moves id = record { on = λ turn db sound. ground arith }

  pub find_customer_by_sub-Moves : (sub : Option String) → Quiet p (find_customer_by_sub sub)
  unfolding find_customer_by_sub
  find_customer_by_sub-Moves sub = record { on = λ turn db sound. ground arith }

  pub update_customer_email-Moves :
      (id : ℕ) (email : String) → Quiet p (update_customer_email id email)
  unfolding update_customer_email
  update_customer_email-Moves id email = record { on = λ turn db sound. ground arith }

  pub link_customer-Moves :
      (email : String) (sub : Option String) → Quiet p (link_customer email sub)
  unfolding link_customer
  link_customer-Moves email sub = record { on = λ turn db sound. ground arith }

  pub claim_idempotency_key-Moves :
      (sub key hash : String) → Quiet p (claim_idempotency_key sub key hash)
  unfolding claim_idempotency_key
  claim_idempotency_key-Moves sub key hash = record { on = λ turn db sound. ground arith }

  pub find_idempotency_key-Moves : (sub key : String) → Quiet p (find_idempotency_key sub key)
  unfolding find_idempotency_key
  find_idempotency_key-Moves sub key = record { on = λ turn db sound. ground arith }

  pub complete_idempotency_key-Moves :
      (sub key : String) (id : ℕ) → Quiet p (complete_idempotency_key sub key id)
  unfolding complete_idempotency_key
  complete_idempotency_key-Moves sub key id = record { on = λ turn db sound. ground arith }

  pub release_idempotency_key-Moves : (sub key : String) → Quiet p (release_idempotency_key sub key)
  unfolding release_idempotency_key
  release_idempotency_key-Moves sub key = record { on = λ turn db sound. ground arith }

  pub claim_next_stripe_event-Moves :
      (max_attempts : ℕ) → Quiet p (claim_next_stripe_event max_attempts)
  unfolding claim_next_stripe_event
  claim_next_stripe_event-Moves max_attempts = record { on = λ turn db sound. ground arith }

  pub mark_stripe_event_processed-Moves :
      (id : String) (last_error : Option String)
      → Quiet p (mark_stripe_event_processed id last_error)
  unfolding mark_stripe_event_processed
  mark_stripe_event_processed-Moves id last_error = record { on = λ turn db sound. ground arith }

  pub mark_stripe_event_failed-Moves :
      (id : String) (last_error : Option String) → Quiet p (mark_stripe_event_failed id last_error)
  unfolding mark_stripe_event_failed
  mark_stripe_event_failed-Moves id last_error = record { on = λ turn db sound. ground arith }

  pub list_orders_by_customer-Moves :
      (customer_id limit offset : ℕ) → Quiet p (list_orders_by_customer customer_id limit offset)
  unfolding list_orders_by_customer
  list_orders_by_customer-Moves customer_id limit offset = record {
    on = λ turn db sound. ground arith;
  }

  pub list_products-Moves : (limit offset : ℕ) → Quiet p (list_products limit offset)
  unfolding list_products
  list_products-Moves limit offset = record { on = λ turn db sound. ground arith }

  pub insert_stripe_event-Moves : (m : InsertStripeEventParams) → Quiet p (insert_stripe_event m)
  unfolding insert_stripe_event
  insert_stripe_event-Moves m = record { on = λ turn db sound. ground arith }

  pub latest_stripe_event_created_at-Moves : Quiet p latest_stripe_event_created_at
  unfolding latest_stripe_event_created_at
  latest_stripe_event_created_at-Moves = record { on = λ turn db sound. ground arith }
