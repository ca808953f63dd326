-- ===== src/Payments/Webhook/Delivery.antt =====
-- A payment event that is delivered twice.
use doorbust.Base.{ℕ, String, true, ◌≡◌, refl, some, find, Bool-cases, inl, inr}
use doorbust.Store.{Db, ok}
use doorbust.Session.{World, call, attempt, pure, ◌>>=◌}
use doorbust.Session.Calm.{calm, calm_turn}
use doorbust.Queries.OrderRows.{is_found}
use doorbust.Queries.EventRows.{InsertStripeEventParams, insert_stripe_event, has_event_id}
use doorbust.Orders.Handler.Routes.{sent}
use doorbust.Payments.Poller.Recording.{has_event, inserted-found}
use doorbust.Payments.Webhook.{Event, ConstructEvent, handle_webhook}

-- The params of a verified payload.
abbrev insert_of : Event → String → InsertStripeEventParams
insert_of e payload = record {
  id = e.id;
  type = e.type;
  payload = payload;
  stripe_created_at = some e.created;
}

module _ (construct_event : ConstructEvent) (secret payload signature : String) (event : Event)
    (genuine : construct_event payload signature secret ≡ some event) where
  handled :
      (now nextval : ℕ) (w : World)
      → ((handle_webhook construct_event secret (some payload) signature (calm now nextval) w).0
          ≡ ok (sent 200 "received"))
        × ((handle_webhook construct_event secret
              (some payload)
              signature
              (calm now nextval)
              w).1.shared
            ≡ (insert_stripe_event (insert_of event payload) (calm_turn now nextval) w.shared).1)
  unfolding handle_webhook call attempt ◌>>=◌ pure insert_stripe_event
  handled now nextval w =
      rw genuine (elim (Bool-cases (is_found (find (has_event_id event.id) w.shared.events))) [
        | inl e ↦ rw e (refl, refl)
        | inr e ↦ rw e (refl, refl)
      ])

  inserted-same :
      (now nextval : ℕ) (db : Db)
      → has_event event.id db ≡ true
      → (insert_stripe_event (insert_of event payload) (calm_turn now nextval) db).1 ≡ db
  unfolding insert_stripe_event
  inserted-same now nextval db h = rw h refl

  -- A genuine delivery is answered by 200 and leaves the event in the inbox, whether it has been there
  -- or not; the same delivery once more is answered by 200 too and changes nothing.
  pub handle_webhook-redelivered :
      (now nextval : ℕ) (w : World) (later nextval' : ℕ)
      → let first =
          handle_webhook construct_event secret (some payload) signature (calm now nextval) w in
        let second =
          handle_webhook construct_event secret
            (some payload)
            signature
            (calm later nextval')
            first.1 in
        (first.0 ≡ ok (sent 200 "received"))
        × (has_event event.id first.1.shared ≡ true)
        × (second.0 ≡ ok (sent 200 "received"))
        × (second.1.shared ≡ first.1.shared)
  handle_webhook-redelivered now nextval w later nextval' =
      let (answered, there) = handled now nextval w in
      let w' =
        (handle_webhook construct_event secret (some payload) signature (calm now nextval) w).1 in
      let (again, after) = handled later nextval' w' in
      let found : has_event event.id w'.shared ≡ true =
        rw there (inserted-found (insert_of event payload) (calm_turn now nextval) w.shared) in
      (answered, found, again, rw after (inserted-same later nextval' w'.shared found))
