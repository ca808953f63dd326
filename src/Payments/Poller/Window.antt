-- ===== src/Payments/Poller/Window.antt =====
-- What a poll that ends well has recorded, and what one that is interrupted leaves out.
use doorbust.Base.{
  ℕ, ◌+◌, ◌<◌, ◌≤◌, ◌++◌, String, ltb, ◌≡◌, ◌∙◌, refl, ap, Option, none, some, List, [], ◌∷◌, All,
  find, Bool-cases, ◌⊎◌, ◌-◌, All-weaken, inl, inr, arith,
}
use mathlib.Core.List.{Memᴰ}
use doorbust.Store.{Db, StripeEvent, Result, ok, err, gateway_failed}
use doorbust.Queries.Turns.{Fault, fine, refused, lost}
use doorbust.Queries.EventRows.{
  has_event_id, insert_stripe_event, latest_stripe_event_created_at, latest, later,
}
use doorbust.Session.{World, Env, pool, call, on_pool, arrive, fail, ◌>>=◌, time_now}
use doorbust.Session.Rules.{Holds, Post, Holds-bind, Holds-weaken_post}
use doorbust.Session.Calm.{calm, idle}
use doorbust.Session.Atomic.{Anything}
use doorbust.Payments.Poller.{
  ListedEvent, Poller, event_payload, record_one, record_all, poll, since_for,
}
use doorbust.Payments.Poller.Recording.{IsListed, record_all-IsDone}

abbrev NotAfter : ℕ → Option ℕ → Type 0
NotAfter n none = Unit
NotAfter n (some m) = m ≤ n

-- An event was created at n, and none later.
pub record IsNewest (n : ℕ) (events : List StripeEvent) : Type 0 where
  pub none_after : All (λ e. NotAfter n e.stripe_created_at) events
  pub event : StripeEvent
  pub member : Memᴰ event events
  pub created : event.stripe_created_at ≡ some n

-- The lower bound of a fetch: the overlap before the newest event of the inbox, and where none has a
-- time of creation, the first lookback before now.
abbrev pub IsSince : Poller → ℕ → List StripeEvent → ℕ → Type 0
IsSince p now events since =
    ((n : ℕ) × IsNewest n events × (since ≡ n - p.overlap))
    ⊎ (All (λ e. e.stripe_created_at ≡ none) events × (since ≡ now - p.initial_lookback))

-- The whole list of one fetch is in the inbox.
pub record IsPolled (p : Poller) (now : ℕ) (before after : Db) : Type 0 where
  pub since : ℕ
  pub window : IsSince p now before.events since
  pub recorded : All (IsListed p after) (p.list since)

still_NotAfter : (n m : ℕ) → n ≤ m → (t : Option ℕ) → NotAfter n t → NotAfter m t
still_NotAfter n m h none k = tt
still_NotAfter n m h (some a) k = omega arith

abbrev IsLatest : List StripeEvent → Option ℕ → Type 0
IsLatest xs r =
    ((n : ℕ) × IsNewest n xs × (r ≡ some n))
    ⊎ (All (λ e. e.stripe_created_at ≡ none) xs × (r ≡ none))

none-NotAfter : (n : ℕ) (t : Option ℕ) → t ≡ none → NotAfter n t
none-NotAfter n t e = rw e tt

at-NotAfter : (n m : ℕ) (t : Option ℕ) → t ≡ some m → m ≤ n → NotAfter n t
at-NotAfter n m t e h = rw e h

module _ (x : StripeEvent) (xs : List StripeEvent) where
  -- The newest of xs stays so.
  stays : (n : ℕ) → NotAfter n x.stripe_created_at → IsNewest n xs → IsNewest n (x ∷ xs)
  stays n h newest = record {
    none_after = (h, newest.none_after);
    event = newest.event;
    member = Memᴰ.tail newest.member;
    created = newest.created;
  }

  comes :
      (n : ℕ)
      → x.stripe_created_at ≡ some n
      → All (λ e. NotAfter n e.stripe_created_at) xs
      → IsNewest n (x ∷ xs)
  comes n e h = record {
    none_after = (at-NotAfter n n x.stripe_created_at e (omega arith), h);
    event = x;
    member = Memᴰ.head refl;
    created = e;
  }

  later-IsLatest :
      (t r : Option ℕ) → x.stripe_created_at ≡ t → IsLatest xs r → IsLatest (x ∷ xs) (later t r)
  later-IsLatest none r e (inl (n, newest, h)) =
      inl (n, stays n (none-NotAfter n x.stripe_created_at e) newest, h)
  later-IsLatest none r e (inr (a, h)) = inr ((e, a), h)
  later-IsLatest (some a) r e (inr (all, h)) =
      inl
        (a, comes a e (All-weaken xs (λ y k. none-NotAfter a y.stripe_created_at k) all), rw h refl)
  later-IsLatest (some a) r e (inl (n, newest, h)) = elim (Bool-cases (ltb a n)) [
    | inl f ↦
        inl (
          n,
          stays n (at-NotAfter n a x.stripe_created_at e (ground arith)) newest,
          rw h (rw f refl),
        )
    | inr f ↦
        let fewer : n ≤ a = ground arith in
        inl (
          a,
          comes a e (
              All-weaken xs (λ y k. still_NotAfter n a fewer y.stripe_created_at k)
                newest.none_after),
          rw h (rw f refl),
        )
  ]

latest-IsLatest : (xs : List StripeEvent) → IsLatest xs (latest xs)
unfolding latest
latest-IsLatest [] = inr (tt, refl)
latest-IsLatest (x ∷ xs) =
    later-IsLatest x xs x.stripe_created_at (latest xs) refl (latest-IsLatest xs)

since_for-IsSince :
    (p : Poller) (now : ℕ) (events : List StripeEvent) (c : Option ℕ)
    → IsLatest events c
    → IsSince p now events (since_for p c now)
since_for-IsSince p now events c (inl (n, newest, e)) = inl (n, newest, rw e refl)
since_for-IsSince p now events c (inr (all, e)) = inr (all, rw e refl)

read-cursor :
    (base : Db) (start : ℕ) (f : Fault) (w : World)
    → w.shared ≡ base
    → w.at ≡ start
    → Post
        (λ c w. (c ≡ latest base.events) × (w.at ≡ start))
        Anything
        (on_pool f (ok (latest w.shared.events), w.shared) w).0
        (on_pool f (ok (latest w.shared.events), w.shared) w).1
read-cursor base start refused w h k = tt
read-cursor base start lost w h k = tt
read-cursor base start fine w h k = (ap (λ (d : Db). latest d.events) h, k)

module _ (env : Env) (nobody : (n : ℕ) (db : Db) → (env n).meanwhile db ≡ db) (p : Poller)
    (base : Db) (start : ℕ) where
  -- Where the poll starts from.
  abbrev Starts : World → Type 0
  Starts w = (w.shared ≡ base) × (w.at ≡ start)

  abbrev now_read : ℕ
  now_read = (env (start + 1)).now

  cursor-Holds :
      Holds env Starts
        (call pool latest_stripe_event_created_at)
        (λ c w. (c ≡ latest base.events) × (w.at ≡ start + 1))
        Anything
  unfolding call latest_stripe_event_created_at
  cursor-Holds = record {
    at = λ w h.
        read-cursor base (start + 1) (env w.at).fault (arrive (env w.at) w)
          (nobody w.at w.shared ∙ h.0) (omega (arith, h.1));
  }

  now-Holds :
      (c : Option ℕ)
      → Holds env
          (λ w. (c ≡ latest base.events) × (w.at ≡ start + 1))
          time_now
          (λ now w. (c ≡ latest base.events) × (now ≡ now_read))
          Anything
  unfolding time_now
  now-Holds c = record { at = λ w h. (h.0, ap (λ n. (env n).now) h.1) }

  recorded-Holds :
      (c : Option ℕ) (now : ℕ)
      → Holds env
          (λ w. (c ≡ latest base.events) × (now ≡ now_read))
          (record_all p (p.list (since_for p c now)) 0 0)
          (λ _ w. IsPolled p now_read base w.shared)
          Anything
  recorded-Holds c now = record {
    at = λ w h.
        (Holds-weaken_post _ _ (record_all-IsDone env nobody p _ [] 0 0) (λ _ w done. record {
          since = since_for p c now;
          window =
              rw h.1
                (since_for-IsSince p now_read base.events c (rw h.0 (latest-IsLatest base.events)));
          recorded = done.1;
        })).at
          w (record { all = tt });
  }

  poll-Holds : Holds env Starts (poll p) (λ _ w. IsPolled p now_read base w.shared) Anything
  unfolding poll
  poll-Holds =
      Holds-bind _ _ _ cursor-Holds
        λ cursor. Holds-bind _ _ _ (now-Holds cursor) λ now. recorded-Holds cursor now

polled :
    {p : Poller} {now : ℕ} {base : Db} (r : Result (ℕ × ℕ)) (w : World) (counts : ℕ × ℕ)
    → Post (λ _ w. IsPolled p now base w.shared) Anything r w
    → r ≡ ok counts
    → IsPolled p now base w.shared
polled (ok _) w counts h e = h
polled (err _) w counts h e = cc

-- A poll that ends well has listed the events from the overlap before the newest event of the inbox on, or,
-- where no event of the inbox has a time of creation, from the first lookback before the clock's time
-- on; the list had no error in it, and all its events are in the inbox, but for those that have no
-- payload. Calls may fail; nobody else commits meanwhile.
pub poll-IsPolled :
    (env : Env)
    → ((n : ℕ) (db : Db) → (env n).meanwhile db ≡ db)
    → (p : Poller) (w : World) (counts : ℕ × ℕ) → (poll p env w).0 ≡ ok counts
    → IsPolled p (env (w.at + 1)).now w.shared (poll p env w).1.shared
poll-IsPolled env nobody p w counts e =
    polled (poll p env w).0 (poll p env w).1 counts
      ((poll-Holds env nobody p w.shared w.at).at w (refl, refl)) e

-- The newest time is at least that of the event that came last.
later-le : (a : Option ℕ) (n : ℕ) → (m : ℕ) × (later a (some n) ≡ some m) × (n ≤ m)
later-le none n = (n, refl, omega arith)
later-le (some a) n = elim (Bool-cases (ltb a n)) [
  | inl e ↦ (n, rw e refl, omega arith)
  | inr e ↦ (a, rw e refl, ground arith)
]

latest-append :
    (xs : List StripeEvent) (x : StripeEvent) (n : ℕ)
    → x.stripe_created_at ≡ some n
    → (m : ℕ) × (latest (xs ++ x ∷ []) ≡ some m) × (n ≤ m)
unfolding latest
latest-append [] x n h = (n, rw h refl, omega arith)
latest-append (y ∷ ys) x n h =
    let (m, e, bound) = latest-append ys x n h in
    let (m', e', bound') = later-le y.stripe_created_at m in (m', rw e e', omega arith)

module _ (now nextval : ℕ) (db : Db) (p : Poller) (new : ListedEvent) (payload : String)
    (encoded : event_payload p new ≡ some payload)
    (unknown : find (has_event_id new.id) db.events ≡ none)
    (interrupted : p.list (since_for p (latest db.events) now) ≡ some new ∷ none ∷ []) where
  abbrev new_row : StripeEvent
  new_row = record {
    id = new.id;
    type = new.type;
    payload = payload;
    received_at = now;
    processed_at = none;
    attempts = 0;
    last_error = none;
    stripe_created_at = some new.created;
  }

  interrupted_run :
      ((poll p (calm now nextval) (idle db)).0 ≡ err gateway_failed)
      × ((poll p (calm now nextval) (idle db)).1.shared.events ≡ db.events ++ new_row ∷ [])
  unfolding poll record_all record_one insert_stripe_event latest_stripe_event_created_at call
      time_now ◌>>=◌ fail
  interrupted_run = rw interrupted (rw encoded (rw unknown (refl, refl)))

  -- A poll whose list breaks off after its first event moves the lower bound of the next fetch past
  -- every event that is older by more than the overlap, whether it has been recorded or not. Here the
  -- first event is new and has a payload, and nothing else happens meanwhile.
  pub poll-gap :
      (old now' : ℕ)
      → old + p.overlap < new.created
      → ((poll p (calm now nextval) (idle db)).0 ≡ err gateway_failed)
        × (old < since_for p (latest (poll p (calm now nextval) (idle db)).1.shared.events) now')
  poll-gap old now' older =
      let (m, e, bound) = latest-append db.events new_row new.created refl in
      (interrupted_run.0, rw interrupted_run.1 (rw e (omega arith)))
