-- ===== src/Store/Rows.antt =====
-- The rows of sqlc/models.go. Ids, amounts and times are natural numbers: the sequences and the
-- CHECK constraints keep them from being negative. A nullable column is an `Option`.
use doorbust.Base.{ℕ, String, Bool, true, false, Option, List}

-- The strings of orders.status; `unrecognized` is any other one.
pub data Status : Type 0 where
  pending awaiting_payment completed failed expired cancelled : Status
  unrecognized : String → Status

pub record Product : Type 0 where
  pub id : ℕ
  pub name : String
  pub price_in_cents : ℕ
  pub created_at : ℕ
  pub start_at : ℕ

pub record Stock : Type 0 where
  pub product_id : ℕ
  pub quantity : ℕ
  pub num_reserved : ℕ

pub record Customer : Type 0 where
  pub id : ℕ
  pub email : String
  pub created_at : ℕ
  pub cognito_sub : Option String

pub record Order : Type 0 where
  pub id : ℕ
  pub customer_id : ℕ
  pub product_id : ℕ
  pub status : Status
  pub created_at : ℕ
  pub total_in_cents : ℕ
  pub expires_at : Option ℕ
  pub stripe_payment_intent_id : Option String

pub record OrderIdempotency : Type 0 where
  pub cognito_sub : String
  pub idem_key : String
  pub request_hash : String
  pub order_id : Option ℕ
  pub created_at : ℕ

pub record StripeEvent : Type 0 where
  pub id : String
  pub type : String
  pub payload : String
  pub received_at : ℕ
  pub processed_at : Option ℕ
  pub attempts : ℕ
  pub last_error : Option String
  pub stripe_created_at : Option ℕ

-- The database.
pub record Db : Type 0 where
  pub products : List Product
  pub stock : List Stock
  pub customers : List Customer
  pub orders : List Order
  pub idempotency : List OrderIdempotency
  pub events : List StripeEvent

-- An order that still holds a unit of stock.
abbrev pub is_live : Status → Bool
is_live pending = true
is_live awaiting_payment = true
is_live _ = false

abbrev pub is_pending : Status → Bool
is_pending pending = true
is_pending _ = false

abbrev pub is_awaiting_payment : Status → Bool
is_awaiting_payment awaiting_payment = true
is_awaiting_payment _ = false

abbrev pub is_completed : Status → Bool
is_completed completed = true
is_completed _ = false
