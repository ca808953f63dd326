-- ===== src/Program/Mount.antt =====
-- cmd/api.go, mount: the routes with what stands before them, the limiters, the check of the token and the
-- vendors' group. A request comes with its path, its query and its body parsed. The probes and
-- the files of the storefront are left out.
pub mod Guard
pub mod Books
use doorbust.Base.{ℕ, ◌==◌, String, Bool, Option, none, some, List, [], ◌∷◌, if◌then◌else◌}
use doorbust.Session.{World, Env, M, pure, ◌>>=◌}
use doorbust.Auth.{Claims}
use doorbust.Auth.Middleware.{
  HttpRequest, Response, refused, served, Handler, middleware, require_group,
}
use doorbust.RateLimit.{TokenBucket, Limiter, middleware as limit, by_subject, by_ip}
use doorbust.Orders.Handler.{ℤ, Code, Param, forbidden_code, unauthorized_code, rate_limited_code}
use doorbust.Orders.Handler.Routes.{
  Reply, sent, rejected, OrderResponse, CheckoutResponse, get_order_route, list_orders_route,
  create_order_route, checkout_route, cancel_order_route,
}
use doorbust.Orders.Strategies.{Strategy}
use doorbust.Products.Routes.{
  ProductResponse, CreateProductRequest, list_products_route, get_product_route,
  create_product_route,
}
use doorbust.Customers.Profile.{MeResponse, get_me}
use doorbust.Payments.Webhook.{handle_webhook}
use doorbust.Program.{Config}

pub data Public : Type 0 where
  health : Public
  all_products : Param → Param → Public
  one_product : Option ℕ → Public
  stripe_webhook : Option String → String → Public

-- The routes of the group that requires a verified caller.
pub data Protected : Type 0 where
  me : Protected
  new_product : Option CreateProductRequest → Protected
  my_orders : Param → Param → Protected
  one_order : Option ℕ → Protected
  place : String → Option ℤ → Protected
  pay cancel : Option ℕ → Protected

pub data Route : Type 0 where
  to_all : Public → Route
  to_callers : Protected → Route

pub record Incoming : Type 0 where
  pub remote_addr : String
  pub authorization : String
  pub now : ℕ
  pub route : Route

pub data Body : Type 0 where
  text : String → Body
  products : List ProductResponse → Body
  product : ProductResponse → Body
  profile : MeResponse → Body
  orders : List OrderResponse → Body
  order : OrderResponse → Body
  payment : CheckoutResponse → Body

pub record Limits {ℓ} (T : Type ℓ) : Type ℓ where
  pub per_ip : Limiter T
  pub per_subject : Limiter T

abbrev with_body : {A : Type 0} → (A → Body) → Reply A → Reply Body
with_body f (sent status a) = sent status (f a)
with_body f (rejected status code) = rejected status code

unfoldable pub respond : {A : Type 0} → (A → Body) → M (Reply A) → M (Reply Body)
respond f m = do r ← m; pure (with_body f r)

-- Neither has looked at the world.
abbrev pub too_many : M (Reply Body)
too_many = pure (rejected 429 rate_limited_code)

abbrev refusal_code : ℕ → Code
refusal_code status = if status == 403 then forbidden_code else unauthorized_code

abbrev pub refusal : ℕ → M (Reply Body)
refusal status = pure (rejected status (refusal_code status))

-- The identity that Middleware has put on the context.
abbrev pub http : Incoming → HttpRequest
http i = record { authorization = i.authorization; claims = none }

module _ (config : Config) (reserve : Strategy) where
  unfoldable pub public_handler : Public → M (Reply Body)
  public_handler health = pure (sent 200 (text "all good"))
  public_handler (all_products limit offset) = respond products (list_products_route limit offset)
  public_handler (one_product id) = respond product (get_product_route id)
  public_handler (stripe_webhook payload signature) =
      respond text (handle_webhook config.construct_event config.webhook_secret payload signature)

  unfoldable pub handler : Protected → Option Claims → M (Reply Body)
  handler me caller = respond profile (get_me config.vendor_group caller)
  handler (new_product body) caller = respond product (create_product_route body)
  handler (my_orders limit offset) caller = respond orders (list_orders_route caller limit offset)
  handler (one_order id) caller = respond order (get_order_route id caller)
  handler (place key body) caller =
      respond order (create_order_route reserve config.reservation_ttl caller key body)
  handler (pay id) caller =
      respond payment (checkout_route config.gateway config.reservation_ttl id caller)
  handler (cancel id) caller = respond order (cancel_order_route id caller)

  -- r.With(auth.RequireGroup(...)), on one of the routes.
  abbrev pub vendors_only : Protected → Handler (M (Reply Body)) → Handler (M (Reply Body))
  vendors_only (new_product body) next = require_group config.vendor_group next
  vendors_only _ next = next

  abbrev or_refusal : Response (M (Reply Body)) → M (Reply Body)
  or_refusal (refused status) = refusal status
  or_refusal (served m) = m

  unfoldable pub endpoint : Protected → HttpRequest → M (Reply Body)
  endpoint c r = or_refusal (vendors_only c (λ r. served (handler c r.claims)) r)

  module _ {ℓ} {T : Type ℓ} (verify : String → Option Claims) (rate : TokenBucket T)
      (split_host_port : String → Option String) where
    abbrev or_too_many : Bool → M (Reply Body) → M (Reply Body)
    or_too_many allowed m = if allowed then m else too_many

    abbrev pub per_caller : Limits T → ℕ → Protected → HttpRequest → Limits T × M (Reply Body)
    per_caller l now c r =
        let (allowed, left) = limit rate (by_subject r.claims) now l.per_subject in
        (record l { per_subject = left }, or_too_many allowed (endpoint c r))

    abbrev or_refused : Limits T → Response (Limits T × M (Reply Body)) → Limits T × M (Reply Body)
    or_refused l (refused status) = (l, refusal status)
    or_refused l (served answer) = answer

    abbrev pub routed : Limits T → Incoming → Route → Limits T × M (Reply Body)
    routed l i (to_all c) = (l, public_handler c)
    routed l i (to_callers c) =
        or_refused l (middleware verify (λ r. served (per_caller l i.now c r)) (http i))

    unfoldable pub mount : Limits T → Incoming → Limits T × M (Reply Body)
    mount l i =
        let (allowed, left) = limit rate (by_ip split_host_port i.remote_addr) i.now l.per_ip in
        if allowed
        then routed (record l { per_ip = left }) i i.route
        else (record l { per_ip = left }, too_many)

    -- One request after another, each among its own surroundings.
    unfoldable pub mount_history : Limits T → List (Env × Incoming) → World → World
    mount_history l [] w = w
    mount_history l ((env, i) ∷ rest) w =
        let answer = mount l i in mount_history answer.0 rest (answer.1 env w).1
