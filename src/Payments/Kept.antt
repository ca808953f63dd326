-- ===== src/Payments/Kept.antt =====
-- What leaves the inbox alone, whether it ends well or not: the rules for the actions.
pub mod Applying
use doorbust.Base.{
  ℕ, ◌==◌, String, Bool, true, false, leb, ◌≡◌, refl, ◌∙◌, Option, none, some, List, find,
  update_first, Bool-cases, inl, inr,
}
use doorbust.Store.{
  Db, Order, Customer, Stock, StripeEvent, Result, ok, err, Error, no_rows, completed, failed,
}
use doorbust.Queries.Turns.{Turn, Query, Fault, fine, refused, lost}
use doorbust.Queries.StockRows.{
  commit_stock, release_stock, returning_stock, has_reservation, commit_one, release_one,
}
use doorbust.Queries.OrderRows.{
  find_order_by_payment_intent_id, complete_order, fail_order, returning_order, join_owner,
  join_customer, has_intent, is_awaiting_order, with_status,
}
use doorbust.Session.{
  World, Env, M, tx, call, arrive, in_view, begin, begun, commit, settled, opened, with_rollback,
  in_transaction, fail, lift, attempt, ◌>>=◌,
}
use doorbust.Session.Rules.{Holds, Post, Holds-bind, Holds-fail, Holds-pure, Holds-lift}
use doorbust.Orders.Service.{fulfill_payment, after_complete, fail_payment, after_fail}
use doorbust.Payments.Events.{EventAction, action_ignore, action_fulfill, action_fail, action_for}
use doorbust.Payments.Worker.{Codec, apply, apply_action}

-- The inbox, as everybody sees it and as the transaction does.
pub record Inbox (events : List StripeEvent) (w : World) : Type 0 where
  pub shared : w.shared.events ≡ events
  pub view : w.view.events ≡ events

abbrev pub Keeps : {A : Type 0} → Query A → Type 0
Keeps q = (t : Turn) (db : Db) → (q t db).1.events ≡ db.events

both_ends : {A : Type 0} (P : World → Type 0) (r : Result A) (w : World) → P w → Post (λ _. P) P r w
both_ends P (ok a) w h = h
both_ends P (err e) w h = h

module _ (env : Env) (nobody : (n : ℕ) (db : Db) → (env n).meanwhile db ≡ db)
    (events : List StripeEvent) where
  abbrev pub Kept : {A : Type 0} → M A → Type 0
  Kept m = Holds env (Inbox events) m (λ _. Inbox events) (Inbox events)

  pub arrive-Inbox : (w : World) → Inbox events w → Inbox events (arrive (env w.at) w)
  arrive-Inbox w h = record {
    shared = rw (nobody w.at w.shared) h.shared;
    view = rw (nobody w.at w.view) h.view;
  }

  in_view-Inbox :
      {A : Type 0} (b : Bool) (f : Fault) (r : Result A) (db : Db) (w : World)
      → Inbox events w
      → db.events ≡ events
      → Post (λ _. Inbox events) (Inbox events) (in_view b f (r, db) w).0 (in_view b f (r, db) w).1
  in_view-Inbox true f r db w h k = record { shared = h.shared; view = h.view }
  in_view-Inbox false fine r db w h k =
      both_ends (Inbox events) r _ (record { shared = h.shared; view = k })
  in_view-Inbox false refused r db w h k = record { shared = h.shared; view = h.view }
  in_view-Inbox false lost r db w h k = record { shared = h.shared; view = h.view }

  pub call-Inbox : {A : Type 0} (q : Query A) → Keeps q → Kept (call tx q)
  unfolding call
  call-Inbox q keeps = record {
    at = λ w h.
        let h' = arrive-Inbox w h in
        let w' = arrive (env w.at) w in
        in_view-Inbox w'.aborted (env w.at).fault (q (env w.at) w'.view).0 (q (env w.at) w'.view).1
          w' h' (keeps (env w.at) w'.view ∙ h'.view);
  }

  settled-Inbox :
      (b : Bool) (f : Fault) (w : World)
      → Inbox events w
      → Post (λ _. Inbox events) (Inbox events) (settled b f w).0 (settled b f w).1
  settled-Inbox true f w h = h
  settled-Inbox false fine w h = record { shared = h.view; view = h.view }
  settled-Inbox false refused w h = h
  settled-Inbox false lost w h = record { shared = h.view; view = h.view }

  pub commit-Inbox : Kept commit
  unfolding commit
  commit-Inbox = record { at = λ w h. settled-Inbox _ _ _ (arrive-Inbox w h) }

  begun-Inbox :
      (f : Fault) (w : World)
      → Inbox events w
      → Post (λ _. Inbox events) (Inbox events) (begun f w).0 (begun f w).1
  begun-Inbox fine w h = record { shared = h.shared; view = h.shared }
  begun-Inbox refused w h = h
  begun-Inbox lost w h = h

  opened-Inbox :
      {A : Type 0} (r : Result A) (w : World)
      → Post (λ _. Inbox events) (Inbox events) r w
      → Post (λ _. Inbox events) (Inbox events) r (opened w)
  opened-Inbox (ok a) w h = record { shared = h.shared; view = h.shared }
  opened-Inbox (err e) w h = record { shared = h.shared; view = h.shared }

  pub in_transaction-Inbox : {A : Type 0} (m : M A) → Kept m → Kept (in_transaction m)
  unfolding in_transaction with_rollback begin
  in_transaction-Inbox m h =
      Holds-bind begin _ _
        (record { at = λ w i. begun-Inbox (env w.at).fault _ (arrive-Inbox w i) })
        λ _. record { at = λ w i. opened-Inbox _ _ (h.at w i) }

  attempted-Inbox :
      {A : Type 0} (r : Result A) (w : World)
      → Post (λ _. Inbox events) (Inbox events) r w
      → Inbox events w
  attempted-Inbox (ok a) w h = h
  attempted-Inbox (err e) w h = h

  pub attempt-Holds :
      {A : Type 0} {Out : World → Type 0} (m : M A)
      → Kept m
      → Holds env (Inbox events) (attempt m) (λ _. Inbox events) Out
  unfolding attempt
  attempt-Holds m hm = record { at = λ w h. attempted-Inbox (m env w).0 (m env w).1 (hm.at w h) }

  pub attempt-Inbox :
      {A B : Type 0} (m : M A) (f : Result A → M B)
      → Kept m
      → ((r : Result A) → Kept (f r))
      → Kept (attempt m >>= f)
  attempt-Inbox m f hm hf = Holds-bind (attempt m) f _ (attempt-Holds m hm) hf

  pub lift-Inbox : {A : Type 0} (r : Result A) → Kept (lift r)
  lift-Inbox r = Holds-lift r (both_ends (Inbox events) r)

  pub bind-Inbox :
      {A B : Type 0} (m : M A) (f : A → M B) → Kept m → ((a : A) → Kept (f a)) → Kept (m >>= f)
  bind-Inbox m f hm hf = Holds-bind m f _ hm hf

  pub fail-Inbox : {A : Type 0} (e : Error) → Kept (fail {A = A} e)
  fail-Inbox e = Holds-fail e (λ w h. h)
