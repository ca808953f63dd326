-- ===== src/Program.antt =====
-- The running program: the service as cmd/api.go wires it, the requests that it serves, and a
-- history of them.
pub mod EntranceBalance
pub mod RouteBalance
pub mod NoOversell
pub mod AllOrNothing
pub mod Mount
use doorbust.Base.{ℕ, String, Bool, true, false, Option, none, some, List, [], ◌∷◌, if◌then◌else◌}
use doorbust.Store.{Result}
use doorbust.Session.{World, Env, M, pure, ◌>>◌}
use doorbust.Auth.{Claims}
use doorbust.Customers.{Resolver, direct_resolve, cached_resolve}
use doorbust.Orders.Strategies.{Strategy, strategy_by_name}
use doorbust.Orders.Idempotency.{idempotent_reserve}
use doorbust.Orders.Service.{
  PaymentGateway, CreateOrderParams, get_order, list_orders, create_order, checkout, cancel_order,
  sweep_expired,
}
use doorbust.Products.{list_products, get_product}
use doorbust.Customers.Profile.{get_me}
use doorbust.Payments.Worker.{Codec, process_next}
use doorbust.Payments.Webhook.{ConstructEvent, handle_webhook}
use doorbust.Payments.Poller.{Poller, poll}

pub record Config : Type 0 where
  pub reserve_strategy : String
  pub idempotency : Bool
  pub customer_cache : Bool
  pub reservation_ttl : ℕ
  pub sweep_batch_size : ℕ
  pub max_attempts : ℕ
  pub gateway : PaymentGateway
  pub codec : Codec
  pub request_hash : ℕ → String
  pub vendor_group : String
  pub construct_event : ConstructEvent
  pub webhook_secret : String
  pub poller : Poller

abbrev pub guarded : Bool → (ℕ → String) → Strategy → Strategy
guarded true request_hash reserve = idempotent_reserve request_hash reserve
guarded false request_hash reserve = reserve

abbrev pub guarded_arm : Config → Option Strategy → Option Strategy
guarded_arm config none = none
guarded_arm config (some reserve) = some (guarded config.idempotency config.request_hash reserve)

abbrev pub resolver_of : Bool → Resolver
resolver_of true = cached_resolve
resolver_of false = direct_resolve

-- The arm that is chosen at boot; `none` is the panic on a name that is not known.
unfoldable pub boot : Config → Option Strategy
boot config =
    guarded_arm config
      (strategy_by_name config.reserve_strategy (resolver_of config.customer_cache))

-- What is asked of the program: by a visitor or a buyer over HTTP, by the processor's webhook, by the
-- ticker of the sweeper, by that of the worker, which applies the next payment event, and by that of the
-- poller. A vendor's new product is no request here: it brings units of its own.
pub data Request : Type 0 where
  get : ℕ → Claims → Request
  list : Claims → ℕ → ℕ → Request
  place : CreateOrderParams → Request
  check_out cancel : ℕ → Claims → Request
  sweep next_event fetch : Request
  browse : ℕ → ℕ → Request
  view : ℕ → Request
  me : Option Claims → Request
  deliver : Option String → String → Request

unfoldable pub serve : Config → Strategy → Request → M (Unit {0})
serve config reserve (get id claims) = get_order id claims >> pure tt
serve config reserve (list claims limit offset) = list_orders claims limit offset >> pure tt
serve config reserve (place p) = create_order reserve config.reservation_ttl p >> pure tt
serve config reserve (check_out id claims) =
    checkout config.gateway config.reservation_ttl id claims >> pure tt
serve config reserve (cancel id claims) = cancel_order id claims >> pure tt
serve config reserve sweep = sweep_expired config.sweep_batch_size >> pure tt
serve config reserve next_event = process_next config.codec config.max_attempts >> pure tt
serve config reserve fetch = poll config.poller >> pure tt
serve config reserve (browse limit offset) = list_products limit offset >> pure tt
serve config reserve (view id) = get_product id >> pure tt
serve config reserve (me caller) = get_me config.vendor_group caller >> pure tt
serve config reserve (deliver payload signature) =
    handle_webhook config.construct_event config.webhook_secret payload signature >> pure tt

-- One request after another, each among its own surroundings.
unfoldable pub history : Config → Strategy → List (Env × Request) → World → World
history config reserve [] w = w
history config reserve ((env, request) ∷ rest) w =
    history config reserve rest (serve config reserve request env w).1
