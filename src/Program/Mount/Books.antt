-- ===== src/Program/Mount/Books.antt =====
-- The books of a product, under the requests that come in over HTTP.
use mathlib.Core.List.{Memᴰ}
use doorbust.Base.{
  ℕ, ◌≡◌, sym, refl, String, Option, some, List, [], ◌∷◌, All, Bool-cases, inl, inr,
}
use mathlib.Core.Path.{subst}
use doorbust.Store.{Db}
use doorbust.Session.{World, Env, M}
use doorbust.Session.Rules.{Holds-bind, Holds-pure}
use doorbust.Auth.{Claims}
use doorbust.Auth.Middleware.Admission.{IsCaller}
use doorbust.RateLimit.{TokenBucket, middleware as limit, by_ip}
use doorbust.Orders.Handler.Routes.{Reply}
use doorbust.Orders.ReserveBalance.{KeepsOutside}
use doorbust.Orders.Strategies.{Strategy}
use doorbust.Program.{Config, boot}
use doorbust.Program.EntranceBalance.{get_me-Keeps, handle_webhook-Keeps}
use doorbust.Program.RouteBalance.{
  list_products_route-Keeps, get_product_route-Keeps, list_orders_route-Keeps,
  get_order_route-Keeps, create_order_route-Keeps, checkout_route-Keeps, cancel_order_route-Keeps,
}
use doorbust.Program.NoOversell.{StaysSound, StrategyKeeps, boot-Keeps, Drift-StaysSound}
use doorbust.Program.Mount.{
  Public, health, all_products, one_product, stripe_webhook, Protected, me, new_product, my_orders,
  one_order, place, pay, cancel, Route, to_all, to_callers, Incoming, Body, Limits, public_handler,
  handler, respond, mount, http, mount_history,
}
use doorbust.Program.Mount.Guard.{
  IsGuarded, admitted, outsider, nobody, throttled, IsAllowed, mount-IsGuarded,
}
use doorbust.Ledger.{Account, books_of, IsBalanced}
use doorbust.Ledger.Actions.{Rely, RelyOn, Outside, Drift-refl}
use doorbust.Ledger.Quiet.{Post-out}

-- The request carries no valid token of a vendor.
abbrev pub IsNoVendor : Config → (String → Option Claims) → Incoming → Type 0
IsNoVendor config verify i =
    (claims : Claims) → IsCaller verify (http i) claims → Memᴰ config.vendor_group claims.groups → ⊥

module _ {env : Env} {p : Account} where
  respond-Keeps :
      {A : Type 0} (f : A → Body) (m : M (Reply A))
      → KeepsOutside p env m
      → KeepsOutside p env (respond f m)
  unfolding respond
  respond-Keeps f m h base = Holds-bind m _ _ (h base) (λ _. Holds-pure _)

module _ {env : Env} {p : Account} (rely : RelyOn p env) (config : Config) (reserve : Strategy)
    (keeps : StrategyKeeps p env reserve) where
  public_handler-Keeps : (c : Public) → KeepsOutside p env (public_handler config reserve c)
  unfolding public_handler
  public_handler-Keeps health base = Holds-pure _
  public_handler-Keeps (all_products limit offset) base =
      respond-Keeps _ _ (list_products_route-Keeps rely limit offset) base
  public_handler-Keeps (one_product id) base =
      respond-Keeps _ _ (get_product_route-Keeps rely id) base
  public_handler-Keeps (stripe_webhook payload signature) base =
      respond-Keeps _ _
        (handle_webhook-Keeps rely config.construct_event config.webhook_secret payload signature)
        base

  handler-Keeps :
      (c : Protected) (claims : Claims)
      → (Memᴰ config.vendor_group claims.groups → ⊥)
      → IsAllowed config.vendor_group c claims
      → KeepsOutside p env (handler config reserve c (some claims))
  unfolding handler
  handler-Keeps (new_product body) claims no_vendor allowed = absurd (no_vendor allowed)
  handler-Keeps me claims no_vendor allowed =
      respond-Keeps _ _ (get_me-Keeps rely config.vendor_group (some claims))
  handler-Keeps (my_orders limit offset) claims no_vendor allowed =
      respond-Keeps _ _ (list_orders_route-Keeps rely (some claims) limit offset)
  handler-Keeps (one_order id) claims no_vendor allowed =
      respond-Keeps _ _ (get_order_route-Keeps rely id (some claims))
  handler-Keeps (place key body) claims no_vendor allowed =
      respond-Keeps _ _
        (create_order_route-Keeps rely reserve config.reservation_ttl keeps (some claims) key body)
  handler-Keeps (pay id) claims no_vendor allowed =
      respond-Keeps _ _
        (checkout_route-Keeps rely config.gateway config.reservation_ttl id (some claims))
  handler-Keeps (cancel id) claims no_vendor allowed =
      respond-Keeps _ _ (cancel_order_route-Keeps rely id (some claims))

  module _ (verify : String → Option Claims) (i : Incoming)
      (no_vendor : IsNoVendor config verify i) where
    guarded-Keeps :
        (c : Protected) (m : M (Reply Body))
        → IsGuarded config reserve verify c (http i) m
        → KeepsOutside p env m
    guarded-Keeps c m (admitted claims caller allowed e) =
        subst (KeepsOutside p env) (sym e)
          (handler-Keeps c claims (no_vendor claims caller) allowed)
    guarded-Keeps c m (outsider claims caller denied e) =
        subst (KeepsOutside p env) (sym e) (λ base. Holds-pure _)
    guarded-Keeps c m (nobody h e) = subst (KeepsOutside p env) (sym e) (λ base. Holds-pure _)
    guarded-Keeps c m (throttled e) = subst (KeepsOutside p env) (sym e) (λ base. Holds-pure _)

    module _ {ℓ} {T : Type ℓ} (rate : TokenBucket T) (split_host_port : String → Option String)
        (l : Limits T) where
      public-Keeps :
          (c : Public)
          → i.route ≡ to_all c
          → KeepsOutside p env (mount config reserve verify rate split_host_port l i).1
      unfolding mount
      public-Keeps c asked =
          elim (Bool-cases (limit rate (by_ip split_host_port i.remote_addr) i.now l.per_ip).0) [
            | inl e ↦ rw (e, asked) (public_handler-Keeps c)
            | inr e ↦ rw e (λ base. Holds-pure _)
          ]

      mount-Keeps :
          (route : Route)
          → i.route ≡ route
          → KeepsOutside p env (mount config reserve verify rate split_host_port l i).1
      mount-Keeps (to_all c) asked = public-Keeps c asked
      mount-Keeps (to_callers c) asked =
          guarded-Keeps c _ (mount-IsGuarded config reserve verify rate split_host_port l i c asked)

module _ {ℓ} {T : Type ℓ} (config : Config) (reserve : Strategy)
    (booted : boot config ≡ some reserve) (verify : String → Option Claims) (rate : TokenBucket T)
    (split_host_port : String → Option String) (p : ℕ) where
  abbrev pub Arrives : Env × Incoming → Type 0
  Arrives r = Rely p r.0 × IsNoVendor config verify r.1

  mount_history-Outside :
      (base : Db) (l : Limits T) (requests : List (Env × Incoming))
      → All Arrives requests
      → (w : World) → Outside (books_of p) base w
      → Outside
          (books_of p)
          base
          (mount_history config reserve verify rate split_host_port l requests w)
  unfolding mount_history
  mount_history-Outside base l [] arrives w h = h
  mount_history-Outside base l ((env, i) ∷ rest) ((rely, no_vendor), arrives) w h =
      let served =
        mount-Keeps rely config reserve (boot-Keeps rely config reserve booted) verify i no_vendor
          rate split_host_port l i.route refl base in
      mount_history-Outside base (mount config reserve verify rate split_host_port l i).0 rest
        arrives _ (Post-out (Outside (books_of p) base) _ _ (served.at w h))

  -- Whatever requests come in over HTTP, whoever sends them and whichever are throttled, as long as
  -- none carries a valid token of a vendor: from books in order, and where the other transactions
  -- that commit in between keep books in order, no unit of a product appears or gets lost, and the
  -- units sold and held are never more than there were.
  pub mount_history-StaysSound :
      (l : Limits T) (requests : List (Env × Incoming))
      → All Arrives requests
      → (w : World) → IsBalanced p w.shared
      → StaysSound p w.shared
          (mount_history config reserve verify rate split_host_port l requests w).shared
  mount_history-StaysSound l requests arrives w balanced =
      Drift-StaysSound balanced
        (mount_history-Outside w.shared l requests arrives w
          (record { kept = Drift-refl balanced.sound })).kept
