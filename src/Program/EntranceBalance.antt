-- ===== src/Program/EntranceBalance.antt =====
-- What comes in beside the orders leaves every product's books in order: the storefront's reads, the
-- caller's profile, the webhook and the poller.
use doorbust.Base.{ℕ, ◌+◌, String, Option, none, some, List, [], ◌∷◌, str_eq}
use doorbust.Store.{gateway_failed}
use doorbust.Session.{Env, pool}
use doorbust.Session.Rules.{Holds-pure, Holds-fail, Holds-if, Holds-bind, Holds-return}
use doorbust.Auth.{Claims}
use doorbust.Customers.Balance.{link-CustomerCalls, Rely-CustomerCalls}
use doorbust.Customers.Profile.{get_or_create, get_me}
use doorbust.Orders.ServiceBalance.{time_now-Keeps}
use doorbust.Products.{list_products, get_product}
use doorbust.Payments.Poller.{Poller, ListedEvent, record_one, record_all, event_payload, poll}
use doorbust.Payments.Webhook.{ConstructEvent, Event, record_event, handle_webhook}
use doorbust.Ledger.OtherEffects.{
  list_products-Moves, find_product_by_id-Moves, insert_stripe_event-Moves,
  latest_stripe_event_created_at-Moves,
}
use doorbust.Ledger.{Account}
use doorbust.Ledger.Actions.{RelyOn, Outside}
use doorbust.Ledger.Quiet.{Keeps-call, Holds-attempt, Post-out}
use doorbust.Orders.ReserveBalance.{KeepsOutside}

module _ {env : Env} {p : Account} (rely : RelyOn p env) where
  pub list_products-Keeps : (limit offset : ℕ) → KeepsOutside p env (list_products limit offset)
  unfolding list_products
  list_products-Keeps limit offset base =
      Keeps-call rely base pool _ (list_products-Moves p limit offset)

  pub get_product-Keeps : (id : ℕ) → KeepsOutside p env (get_product id)
  unfolding get_product
  get_product-Keeps id base = Keeps-call rely base pool _ (find_product_by_id-Moves p id)

  pub get_me-Keeps :
      (vendor_group : String) (caller : Option Claims)
      → KeepsOutside p env (get_me vendor_group caller)
  unfolding get_me get_or_create
  get_me-Keeps vendor_group none base = Holds-pure _
  get_me-Keeps vendor_group (some claims) base =
      Holds-if (str_eq claims.email "") _ _ (λ _. Holds-pure _)
        (λ _.
          Holds-bind _ _ _
            (Holds-attempt _ (link-CustomerCalls (Rely-CustomerCalls rely base pool) claims))
            λ c. Holds-return _ (λ w h. Post-out (Outside p base) c w h))

  record_one-Keeps :
      (e : ListedEvent) (payload : Option String) → KeepsOutside p env (record_one e payload)
  unfolding record_one
  record_one-Keeps e none base = Holds-pure _
  record_one-Keeps e (some payload) base =
      Keeps-call rely base pool _ (insert_stripe_event-Moves p _)

  record_all-Keeps :
      (poller : Poller) (es : List (Option ListedEvent)) (fetched inserted : ℕ)
      → KeepsOutside p env (record_all poller es fetched inserted)
  unfolding record_all
  record_all-Keeps poller [] fetched inserted base = Holds-pure _
  record_all-Keeps poller (none ∷ es) fetched inserted base = Holds-fail gateway_failed (λ _ h. h)
  record_all-Keeps poller (some e ∷ es) fetched inserted base =
      Holds-bind _ _ _ (record_one-Keeps e (event_payload poller e) base)
        λ rows. record_all-Keeps poller es (fetched + 1) (inserted + rows) base

  pub poll-Keeps : (poller : Poller) → KeepsOutside p env (poll poller)
  unfolding poll
  poll-Keeps poller base =
      Holds-bind _ _ _ (Keeps-call rely base pool _ (latest_stripe_event_created_at-Moves p))
        λ cursor.
          Holds-bind _ _ _ (time_now-Keeps rely base) λ now. record_all-Keeps poller _ 0 0 base

  record_event-Keeps :
      (payload : String) (event : Option Event) → KeepsOutside p env (record_event payload event)
  record_event-Keeps payload none base = Holds-pure _
  record_event-Keeps payload (some event) base =
      Holds-bind _ _ _
        (Holds-attempt _ (Keeps-call rely base pool _ (insert_stripe_event-Moves p _)))
        λ r. Holds-return _ (λ w h. Post-out (Outside p base) r w h)

  pub handle_webhook-Keeps :
      (construct_event : ConstructEvent) (secret : String) (payload : Option String)
      (signature : String)
      → KeepsOutside p env (handle_webhook construct_event secret payload signature)
  unfolding handle_webhook
  handle_webhook-Keeps construct_event secret none signature base = Holds-pure _
  handle_webhook-Keeps construct_event secret (some payload) signature base =
      record_event-Keeps payload (construct_event payload signature secret) base
