-- ===== src/Tests/Shop.antt =====
-- A small shop: one product with two units, one of them held by Ann's order.
use doorbust.Base.{ℕ, String, true, false, Option, none, some, List, [], ◌∷◌}
use doorbust.Store.{
  Db, Order, Product, Stock, Customer, OrderIdempotency, Status, pending, awaiting_payment,
}
use doorbust.Auth.{Claims}
use doorbust.Session.{Env}
use doorbust.Session.Calm.{calm}
use doorbust.Customers.{direct_resolve}
use doorbust.Orders.Strategies.{ReserveParams, Strategy, cte_reserve}
use doorbust.Orders.Idempotency.{idempotent_reserve}
use doorbust.Payments.Worker.{Codec}
use doorbust.Program.{Config, Request, place, sweep, me, browse, deliver, fetch}

abbrev pub ann : Claims
ann = record { subject = "sub-ann"; email = "ann@example.com"; groups = [] }

abbrev pub bob : Claims
bob = record { subject = "sub-bob"; email = "ann@example.com"; groups = [] }

abbrev pub ann_row : Customer
ann_row = record { id = 1; email = "ann@example.com"; created_at = 0; cognito_sub = some "sub-ann" }

abbrev pub chair : Product
chair = record { id = 7; name = "chair"; price_in_cents = 4900; created_at = 0; start_at = 0 }

abbrev pub chairs : Stock
chairs = record { product_id = 7; quantity = 2; num_reserved = 1 }

abbrev pub order_in : Status → Option String → Order
order_in s intent = record {
  id = 10;
  customer_id = 1;
  product_id = 7;
  status = s;
  created_at = 5;
  total_in_cents = 4900;
  expires_at = some 60;
  stripe_payment_intent_id = intent;
}

abbrev pub shop_with : Order → Db
shop_with o = record {
  products = chair ∷ [];
  stock = chairs ∷ [];
  customers = ann_row ∷ [];
  orders = o ∷ [];
  idempotency = [];
  events = [];
}

-- Ann's order is pending; Ann's order awaits its payment.
abbrev pub shop : Db
shop = shop_with (order_in pending none)

abbrev pub paying_shop : Db
paying_shop = shop_with (order_in awaiting_payment (some "pi_1"))

abbrev pub ask : ReserveParams
ask = record { product_id = 7; claims = ann; expires_at = 90; idempotency_key = "k1" }

-- Ann's key has led to order 10.
abbrev pub key_row : OrderIdempotency
key_row = record {
  cognito_sub = "sub-ann";
  idem_key = "k1";
  request_hash = "hash";
  order_id = some 10;
  created_at = 5;
}

abbrev pub keyed_shop : Db
keyed_shop = record shop { idempotency = key_row ∷ [] }

abbrev pub one_hash : ℕ → String
one_hash n = "hash"

abbrev pub plain_codec : Codec
plain_codec = record {
  unmarshal_event = λ s. some (some s);
  unmarshal_object = λ s. some s;
  error_text = λ e. "error";
}

abbrev pub config : Config
config = record {
  reserve_strategy = "cte";
  idempotency = true;
  customer_cache = false;
  reservation_ttl = 30;
  sweep_batch_size = 100;
  max_attempts = 5;
  gateway = λ p. some (record { id = "pi_1"; client_secret = "secret" });
  codec = plain_codec;
  request_hash = one_hash;
  vendor_group = "vendors";
  construct_event = λ payload signature secret.
      some (record { id = "evt_1"; type = "payment_intent.succeeded"; created = 52 });
  webhook_secret = "whsec";
  poller = record {
    overlap = 60;
    initial_lookback = 3600;
    list = λ since. [];
    marshal = λ e raw. some raw;
  };
}

abbrev pub arm : Strategy
arm = idempotent_reserve one_hash (cte_reserve direct_resolve)

-- Another order for Ann, who looks at her profile and at what is on sale; an event that is delivered,
-- and the poller that fetches none; then, after the reservations have lapsed, the sweeper.
abbrev pub requests : List (Env × Request)
requests =
    (calm 40 11, place (record { product_id = 7; claims = ann; idempotency_key = "k1" }))
    ∷ (calm 50 13, me (some ann))
    ∷ (calm 51 14, browse 20 0)
    ∷ (calm 52 15, deliver (some "pi_1") "sig")
    ∷ (calm 60 16, fetch)
    ∷ (calm 100 12, sweep)
    ∷ []
