-- ===== src/Payments/Poller/Recording.antt =====
-- What a poll has recorded when it ends, and what it leaves out when it is interrupted.
use doorbust.Queries.Inserted.{find-append-last, find-append-kept}
use doorbust.Base.{
  ℕ, ◌+◌, String, Bool, true, ◌≡◌, refl, Option, none, some, List, [], ◌∷◌, All, All-weaken, find,
  Bool-cases, ◌⊎◌, inl, inr,
}
use doorbust.Store.{Db, Result, ok, err}
use doorbust.Queries.Turns.{Turn, Fault, fine, refused, lost}
use doorbust.Queries.OrderRows.{is_found}
use doorbust.Queries.EventRows.{
  has_event_id, insert_stripe_event, InsertStripeEventParams, new_event,
  latest_stripe_event_created_at,
}
use doorbust.Session.{World, Env, M, pool, call, on_pool, arrive, ◌>>=◌}
use text.Mathlib.TextPositions.{eq_refl}
use doorbust.Session.Rules.{Holds, Post, Holds-bind, Holds-return, Holds-fail, Holds-weaken_post}
use doorbust.Session.Atomic.{Anything}
use doorbust.Payments.Poller.{
  ListedEvent, Poller, payload_of, event_payload, record_one, record_all,
}

-- The inbox has an event with this id.
abbrev pub has_event : String → Db → Bool
has_event id db = is_found (find (has_event_id id) db.events)

-- The event has no data object, or it cannot be encoded.
abbrev pub HasNoPayload : Poller → ListedEvent → Type 0
HasNoPayload p e = (e.raw ≡ none) ⊎ ((raw : String) × (e.raw ≡ some raw) × (p.marshal e raw ≡ none))

-- The event is in the inbox, unless it has no payload.
abbrev pub IsRecorded : Poller → Db → ListedEvent → Type 0
IsRecorded p db e = (has_event e.id db ≡ true) ⊎ HasNoPayload p e

raw-HasNoPayload :
    (p : Poller) (e : ListedEvent) (raw : Option String)
    → e.raw ≡ raw
    → payload_of p e raw ≡ none
    → HasNoPayload p e
raw-HasNoPayload p e none same h = inl same
raw-HasNoPayload p e (some raw) same h = inr (raw, same, h)

module _ (m : InsertStripeEventParams) (t : Turn) (db : Db) where
  pub inserted-found : has_event m.id (insert_stripe_event m t db).1 ≡ true
  unfolding insert_stripe_event
  inserted-found = elim (Bool-cases (is_found (find (has_event_id m.id) db.events))) [
    | inl e ↦ rw e e
    | inr e ↦ rw e (find-append-last (has_event_id m.id) db.events (new_event m t) (eq_refl m.id))
  ]

  inserted-kept :
      (id : String) → has_event id db ≡ true → has_event id (insert_stripe_event m t db).1 ≡ true
  unfolding insert_stripe_event
  inserted-kept id h = elim (Bool-cases (is_found (find (has_event_id m.id) db.events))) [
    | inl e ↦ rw e h
    | inr e ↦ rw e (find-append-kept (has_event_id id) db.events (new_event m t) h)
  ]

-- The inbox has the events with these ids.
pub record Knows (known : List String) (w : World) : Type 0 where
  pub all : All (λ id. has_event id w.shared ≡ true) known

-- An entry of the list: an event that is in the inbox unless it has no payload, and no error.
abbrev pub IsListed : Poller → Db → Option ListedEvent → Type 0
IsListed p db none = ⊥
IsListed p db (some e) = IsRecorded p db e

on_success :
    {A : Type 0} (K : World → Type 0) (r : Result A) (w : World) → K w → Post (λ _. K) Anything r w
on_success K (ok _) w h = h
on_success K (err _) w h = tt

read-Knows :
    {A : Type 0} (known : List String) (f : Fault) (r : Result A) (w : World)
    → Knows known w
    → Post (λ _. Knows known) Anything (on_pool f (r, w.shared) w).0 (on_pool f (r, w.shared) w).1
read-Knows known refused r w h = tt
read-Knows known lost r w h = tt
read-Knows known fine r w h = on_success (Knows known) r _ (record { all = h.all })

module _ (env : Env) (nobody : (n : ℕ) (db : Db) → (env n).meanwhile db ≡ db) where
  arrive-Knows :
      (known : List String) (w : World) → Knows known w → Knows known (arrive (env w.at) w)
  arrive-Knows known w h = record { all = rw (nobody w.at w.shared) h.all }

  on_pool-Knows :
      (m : InsertStripeEventParams) (known : List String) (f : Fault) (t : Turn) (w : World)
      → Knows known w
      → Post
          (λ _. Knows (m.id ∷ known))
          Anything
          (on_pool f (insert_stripe_event m t w.shared) w).0
          (on_pool f (insert_stripe_event m t w.shared) w).1
  on_pool-Knows m known refused t w h = tt
  on_pool-Knows m known lost t w h = tt
  on_pool-Knows m known fine t w h = on_success (Knows (m.id ∷ known)) _ _ (record {
    all = (
      inserted-found m t w.shared,
      All-weaken known (λ id there. inserted-kept m t w.shared id there) h.all,
    );
  })

  insert-Knows :
      (m : InsertStripeEventParams) (known : List String)
      → Holds env
          (Knows known)
          (call pool (insert_stripe_event m))
          (λ _. Knows (m.id ∷ known))
          Anything
  unfolding call
  insert-Knows m known = record {
    at = λ w h. on_pool-Knows m known (env w.at).fault (env w.at) _ (arrive-Knows known w h);
  }

  latest-Knows :
      (known : List String)
      → Holds env
          (Knows known)
          (call pool latest_stripe_event_created_at)
          (λ _. Knows known)
          Anything
  unfolding call latest_stripe_event_created_at
  latest-Knows known = record {
    at = λ w h. read-Knows known (env w.at).fault _ (arrive (env w.at) w) (arrive-Knows known w h);
  }

  module _ (p : Poller) where
    abbrev pub IsDone : List String → List (Option ListedEvent) → World → Type 0
    IsDone known es w = Knows known w × All (IsListed p w.shared) es

    with_payload :
        (known : List String) (e : ListedEvent) (o : Option String)
        (rest : List (Option ListedEvent)) (again : ℕ → M (ℕ × ℕ))
        → event_payload p e ≡ o
        → ((known : List String) (rows : ℕ)
            → Holds env (Knows known) (again rows) (λ _. IsDone known rest) Anything)
        → Holds env
            (Knows known)
            (record_one e o >>= again)
            (λ _. IsDone known (some e ∷ rest))
            Anything
    unfolding record_one
    with_payload known e none rest again eq ih =
        Holds-bind _ _ (λ _. Knows known) (Holds-return 0 (λ _ h. h))
          λ rows.
            Holds-weaken_post _ _ (ih known rows)
              (λ _ w h. (h.0, (inr (raw-HasNoPayload p e e.raw refl eq), h.1)))
    with_payload known e (some payload) rest again eq ih =
        Holds-bind _ _ _ (insert-Knows _ known) λ rows.
          Holds-weaken_post _ _ (ih (e.id ∷ known) rows)
            (λ _ w h. (record { all = h.0.all.1 }, (inl h.0.all.0, h.1)))

    pub record_all-IsDone :
        (es : List (Option ListedEvent)) (known : List String) (fetched inserted : ℕ)
        → Holds env (Knows known) (record_all p es fetched inserted) (λ _. IsDone known es) Anything
    unfolding record_all
    record_all-IsDone [] known fetched inserted = Holds-return _ (λ w h. (h, tt))
    record_all-IsDone (none ∷ rest) known fetched inserted = Holds-fail _ (λ _ _. tt)
    record_all-IsDone (some e ∷ rest) known fetched inserted =
        with_payload known e (event_payload p e) rest _ refl
          (λ known rows. record_all-IsDone rest known (fetched + 1) (inserted + rows))
