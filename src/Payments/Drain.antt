-- ===== src/Payments/Drain.antt =====
-- The worker's loop ends: every event that it marks has one attempt fewer.

use doorbust.Base.{
  ℕ, zero, suc, ◌≤◌, ◌<◌, ◌≡◌, refl, Bool, true, false, Option, none, some, List, arith,
}
use doorbust.Store.{Db, StripeEvent, Result, ok, err, no_rows}
use doorbust.Queries.Turns.{Turn, Fault, fine, refused, lost}
use doorbust.Queries.EventRows.{claim_next_stripe_event, earliest, is_claimable, found_event}
use doorbust.Session.{
  World, Env, M, tx, call, arrive, in_view, begin, begun, commit, settled, opened, with_rollback,
  in_transaction, pure, attempt, ◌>>=◌,
}
use doorbust.Session.Rules.{Holds, Post, Holds-bind, Holds-fail, Holds-pure}
use doorbust.Session.Atomic.{Anything}
use doorbust.Payments.Worker.{Codec, after_event, process_next, after_next, drain}
use doorbust.Payments.Attempts.{IsKeyed, all_left, Marked}
use doorbust.Payments.Kept.{Inbox, arrive-Inbox, attempt-Holds}
use doorbust.Payments.Kept.Applying.{apply-Inbox}
use doorbust.Payments.Marking.{Claimed, Written, claim-Claimed, mark-Written}

module _ (max_attempts : ℕ) where
  -- Outside a transaction, n attempts are left at most.
  pub record Waiting (n : ℕ) (w : World) : Type 0 where
    pub keyed : IsKeyed w.shared.events
    pub left : all_left max_attempts w.shared.events ≤ n

  abbrev AfterRound : ℕ → Bool → World → Type 0
  AfterRound n true w = (m : ℕ) × (m < n) × Waiting m w
  AfterRound n false w = Unit

  module _ (env : Env) (nobody : (n : ℕ) (db : Db) → (env n).meanwhile db ≡ db)
      (events : List StripeEvent) where
    module _ (n : ℕ) (bound : all_left max_attempts events ≤ n) where
      settled-AfterRound :
          (b : Bool) (f : Fault) (w : World)
          → Marked max_attempts events w.view.events
          → Post (λ _. AfterRound n true) Anything (settled b f w).0 (settled b f w).1
      settled-AfterRound true f w m = tt
      settled-AfterRound false fine w m = (
        all_left max_attempts w.view.events,
        omega (arith, m.fewer),
        record { keyed = m.keyed; left = omega arith },
      )
      settled-AfterRound false refused w m = tt
      settled-AfterRound false lost w m = tt

      commit-AfterRound :
          Holds env (Written max_attempts events) commit (λ _. AfterRound n true) Anything
      unfolding commit
      commit-AfterRound = record {
        at = λ w h. settled-AfterRound _ _ _ (rw (nobody w.at w.view) h.marked);
      }

      -- What the claim has answered.
      abbrev Found : Result StripeEvent → World → Type 0
      Found (ok e) w = Inbox events w × Claimed max_attempts events e
      Found (err _) w = Unit

      marked_round :
          (codec : Codec) (e : StripeEvent)
          → Claimed max_attempts events e
          → Holds env (Inbox events) (after_event codec (ok e)) (AfterRound n) Anything
      unfolding after_event
      marked_round codec e c =
          Holds-bind _ _ _
            (attempt-Holds env nobody events _ (apply-Inbox env nobody events codec e))
            λ r.
              Holds-bind _ _ _ (mark-Written max_attempts env nobody events codec e r c)
                λ _. Holds-bind _ _ _ commit-AfterRound λ _. Holds-pure {A = Bool} true

      after_event-AfterRound :
          (codec : Codec) (r : Result StripeEvent)
          → Holds env (Found r) (after_event codec r) (AfterRound n) Anything
      unfolding after_event
      after_event-AfterRound codec (ok e) = record {
        at = λ w h. (marked_round codec e h.1).at w h.0;
      }
      after_event-AfterRound codec (err no_rows) = Holds-pure {A = Bool} false
      after_event-AfterRound codec (err e) = Holds-fail {A = Bool} e (λ w h. tt)

      claimed-Found :
          (t : Turn) (w : World) (o : Option StripeEvent)
          → IsKeyed events
          → Inbox events w
          → earliest (is_claimable max_attempts t) w.view.events ≡ o
          → (b : Bool) (f : Fault)
          → Found (in_view b f (found_event w.view o) w).0 (in_view b f (found_event w.view o) w).1
      claimed-Found t w o keyed h picked true f = tt
      claimed-Found t w none keyed h picked false fine = tt
      claimed-Found t w (some e) keyed h picked false fine = (
        record { shared = h.shared; view = h.view },
        claim-Claimed max_attempts env nobody events t w.view e keyed h.view picked,
      )
      claimed-Found t w o keyed h picked false refused = tt
      claimed-Found t w o keyed h picked false lost = tt

      claim-Found :
          IsKeyed events
          → Holds env
              (Inbox events)
              (attempt (call tx (claim_next_stripe_event max_attempts)))
              Found
              Anything
      unfolding attempt call claim_next_stripe_event
      claim-Found keyed = record {
        at = λ w h.
            let w' = arrive (env w.at) w in
            claimed-Found (env w.at) w'
              (earliest (is_claimable max_attempts (env w.at)) w'.view.events) keyed
              (arrive-Inbox env nobody events w h) refl w'.aborted (env w.at).fault;
      }

      opened-AfterRound :
          (r : Result Bool) (w : World)
          → Post (AfterRound n) Anything r w
          → Post (AfterRound n) Anything r (opened w)
      opened-AfterRound (ok true) w (m, less, h) =
          (m, less, record { keyed = h.keyed; left = h.left })
      opened-AfterRound (ok false) w h = tt
      opened-AfterRound (err e) w h = tt

      begun-Opened :
          (f : Fault) (w : World)
          → w.shared.events ≡ events
          → Post (λ _. Inbox events) Anything (begun f w).0 (begun f w).1
      begun-Opened fine w h = record { shared = h; view = h }
      begun-Opened refused w h = tt
      begun-Opened lost w h = tt

      process_next-AfterRound :
          (codec : Codec)
          → IsKeyed events
          → Holds env
              (λ w. w.shared.events ≡ events)
              (process_next codec max_attempts)
              (AfterRound n)
              Anything
      unfolding process_next in_transaction with_rollback begin
      process_next-AfterRound codec keyed =
          Holds-bind begin _ (λ _. Inbox events)
            (record { at = λ w h. begun-Opened (env w.at).fault _ (rw (nobody w.at w.shared) h) })
            λ _. record {
              at = λ w i. opened-AfterRound _ _ (
                  (Holds-bind _ _ Found (claim-Found keyed) (after_event-AfterRound codec)).at w i);
            }

  module _ (env : Env) (nobody : (n : ℕ) (db : Db) → (env n).meanwhile db ≡ db)
      (codec : Codec) where
    after_next-ends :
        (fuel n : ℕ) (again : M Bool) (r : Result Bool) (w : World)
        → n < suc fuel
        → ((m : ℕ) → m < fuel → Waiting m w → (again env w).0 ≡ ok true)
        → Post (AfterRound n) Anything r w
        → (after_next again r env w).0 ≡ ok true
    unfolding after_next pure
    after_next-ends fuel n again (err e) w bound ih h = refl
    after_next-ends fuel n again (ok false) w bound ih h = refl
    after_next-ends fuel n again (ok true) w bound ih (m, less, rest) = ih m (omega arith) rest

    drain-Waiting :
        (fuel n : ℕ) (w : World)
        → n < fuel
        → Waiting n w
        → (drain fuel codec max_attempts env w).0 ≡ ok true
    unfolding drain ◌>>=◌ attempt
    drain-Waiting zero n w bound h = absurd (omega arith)
    drain-Waiting (suc fuel) n w bound h =
        after_next-ends fuel n (drain fuel codec max_attempts)
          (process_next codec max_attempts env w).0 (process_next codec max_attempts env w).1 bound
          (λ m small rest.
            drain-Waiting fuel m (process_next codec max_attempts env w).1 small rest)
          ((process_next-AfterRound env nobody w.shared.events n h.left codec h.keyed).at w refl)

    -- The worker's loop ends, whichever of its calls fail: after at most as many rounds as the events
    -- of the inbox have attempts left, and one. No two events share an id, and nobody else commits
    -- meanwhile.
    pub drain-ends :
        (fuel : ℕ) (w : World)
        → IsKeyed w.shared.events
        → all_left max_attempts w.shared.events < fuel
        → (drain fuel codec max_attempts env w).0 ≡ ok true
    drain-ends fuel w keyed bound =
        drain-Waiting fuel (all_left max_attempts w.shared.events) w bound
          (record { keyed = keyed; left = omega arith })
