-- ===== src/Payments/Marking.antt =====
-- The event that the worker has claimed, and what its mark leaves of the attempts.
use mathlib.Core.List.{Memᴰ}
use doorbust.Base.{ℕ, ◌≤◌, ◌≡◌, String, Bool, true, false, Option, some, List, update_first}
use doorbust.Store.{Db, StripeEvent, Result, ok, err, no_rows, paid_but_not_fulfillable}
use doorbust.Queries.Turns.{Turn, Query, Fault, fine, refused, lost}
use doorbust.Queries.EventRows.{
  mark_stripe_event_processed, mark_stripe_event_failed, earliest, is_claimable, written_events,
  has_event_id,
}
use doorbust.Session.{World, Env, tx, call, arrive, in_view}
use doorbust.Session.Rules.{Holds, Post}
use doorbust.Session.Atomic.{Anything}
use doorbust.Payments.Worker.{Codec, mark}
use doorbust.Payments.Attempts.{
  IsKeyed, attempts_left, earliest-Memᴰ, update_first-Marked, Marked, IsMark, processed-IsMark,
  failed-IsMark, is_claimable-left,
}
use doorbust.Payments.Kept.{Inbox, arrive-Inbox}

module _ (max_attempts : ℕ) where
  -- An event that has been claimed from this inbox.
  pub record Claimed (events : List StripeEvent) (e : StripeEvent) : Type 0 where
    pub keyed : IsKeyed events
    pub member : Memᴰ e events
    pub left : 1 ≤ attempts_left max_attempts e

  -- The transaction has marked it.
  pub record Written (events : List StripeEvent) (w : World) : Type 0 where
    pub marked : Marked max_attempts events w.view.events

  module _ (env : Env) (nobody : (n : ℕ) (db : Db) → (env n).meanwhile db ≡ db)
      (events : List StripeEvent) where
    pub claim-Claimed :
        (t : Turn) (db : Db) (e : StripeEvent)
        → IsKeyed events
        → db.events ≡ events
        → earliest (is_claimable max_attempts t) db.events ≡ some e
        → Claimed events e
    claim-Claimed t db e keyed same h =
        let (member, passes) =
          earliest-Memᴰ (is_claimable max_attempts t) events e (rw same at h) in
        record { keyed = keyed; member = member; left = is_claimable-left max_attempts t e passes }

    -- A mark of the claimed event.
    abbrev Marks : StripeEvent → Query (Unit {0}) → Type 0
    Marks e q =
        (t : Turn) (db : Db) → db.events ≡ events → Marked max_attempts events (q t db).1.events

    written-Marked :
        (e : StripeEvent) (f : StripeEvent → StripeEvent) (db : Db)
        → IsMark max_attempts f
        → Claimed events e
        → db.events ≡ events
        → Marked max_attempts events
            (written_events db (update_first (has_event_id e.id) f db.events)).events
    written-Marked e f db is_mark c same =
        let (r, u, done) =
          update_first-Marked max_attempts f is_mark e c.left events c.keyed c.member in
        rw same (rw u done)

    processed-Marks :
        (e : StripeEvent) (why : Option String)
        → Claimed events e
        → Marks e (mark_stripe_event_processed e.id why)
    unfolding mark_stripe_event_processed
    processed-Marks e why c t db same =
        written-Marked e _ db (processed-IsMark max_attempts t.now why) c same

    failed-Marks :
        (e : StripeEvent) (why : Option String)
        → Claimed events e
        → Marks e (mark_stripe_event_failed e.id why)
    unfolding mark_stripe_event_failed
    failed-Marks e why c t db same = written-Marked e _ db (failed-IsMark max_attempts why) c same

    in_view-Written :
        (b : Bool) (f : Fault) (r : Result (Unit {0})) (db : Db) (w : World)
        → Marked max_attempts events db.events
        → Post (λ _. Written events) Anything (in_view b f (r, db) w).0 (in_view b f (r, db) w).1
    in_view-Written true f r db w m = tt
    in_view-Written false fine (ok _) db w m = record { marked = m }
    in_view-Written false fine (err _) db w m = tt
    in_view-Written false refused r db w m = tt
    in_view-Written false lost r db w m = tt

    call-Written :
        (e : StripeEvent) (q : Query (Unit {0}))
        → Marks e q
        → Holds env (Inbox events) (call tx q) (λ _. Written events) Anything
    unfolding call
    call-Written e q marks = record {
      at = λ w h.
          let w' = arrive (env w.at) w in
          in_view-Written w'.aborted (env w.at).fault (q (env w.at) w'.view).0
            (q (env w.at) w'.view).1 w'
            (marks (env w.at) w'.view (arrive-Inbox env nobody events w h).view);
    }

    pub mark-Written :
        (codec : Codec) (e : StripeEvent) (r : Result (Unit {0}))
        → Claimed events e
        → Holds env (Inbox events) (mark codec e r) (λ _. Written events) Anything
    unfolding mark
    mark-Written codec e (ok _) c = call-Written e _ (processed-Marks e _ c)
    mark-Written codec e (err (paid_but_not_fulfillable o s)) c =
        call-Written e _ (processed-Marks e _ c)
    mark-Written codec e (err no_rows) c = call-Written e _ (processed-Marks e _ c)
    mark-Written codec e (err other) c = call-Written e _ (failed-Marks e _ c)
