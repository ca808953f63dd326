-- ===== src/Orders/Sweeper/Drain.antt =====
-- The sweeper's loop ends: every full batch leaves that many live orders fewer.
use doorbust.Base.{
  ℕ, zero, suc, ◌≤◌, ◌<◌, ◌-◌, ◌≡◌, refl, Bool, true, false, ltb, List, [], ◌∷◌, length, arith,
  Bool-cases, inl, inr,
}
use doorbust.Store.{Db, Order, Result, ok, err}
use doorbust.Queries.Turns.{Turn, Query, Fault, fine, refused, lost}
use doorbust.Session.{
  World, Env, M, tx, call, arrive, in_view, begin, begun, commit, settled, opened, with_rollback,
  in_transaction, pure, attempt, ◌>>=◌,
}
use doorbust.Session.Rules.{Holds, Post, Holds-bind, Holds-return, Holds-pure}
use doorbust.Session.Atomic.{Anything}
use doorbust.Orders.Service.{sweep_expired, after_expire, release_each}
use doorbust.Orders.Sweeper.{sweep_all, after_sweep}
use doorbust.Orders.Sweeper.Count.{
  all_live, shared_ids, Counted, Counts, expire_orders-Counts, release_stock-Counts,
}

-- Outside a transaction; and in one, which has expired k of them.
pub record Waiting (n k : ℕ) (w : World) : Type 0 where
  pub shared : Counted n k w.shared

pub record Sweeping (n k : ℕ) (w : World) : Type 0 where
  pub shared : Counted n 0 w.shared
  pub view : Counted n k w.view

module _ (env : Env) (nobody : (n : ℕ) (db : Db) → (env n).meanwhile db ≡ db) (n : ℕ) where
  arrive-Sweeping : {k : ℕ} (w : World) → Sweeping n k w → Sweeping n k (arrive (env w.at) w)
  arrive-Sweeping {k} w h = record {
    shared = rw (nobody w.at w.shared) h.shared;
    view = rw (nobody w.at w.view) h.view;
  }

  module _ {A : Type 0} (f : A → ℕ) where
    in_view-Sweeping :
        {k : ℕ} (b : Bool) (t : Fault) (r : Result A × Db) (w : World)
        → Sweeping n k w
        → Counts n f r
        → Post (λ a. Sweeping n (f a)) Anything (in_view b t r w).0 (in_view b t r w).1
    in_view-Sweeping true t r w h c = tt
    in_view-Sweeping false fine (ok a, db) w h c = record { shared = h.shared; view = c }
    in_view-Sweeping false fine (err _, db) w h c = tt
    in_view-Sweeping false refused r w h c = tt
    in_view-Sweeping false lost r w h c = tt

    Sweeping-call :
        (q : Query A) {k : ℕ}
        → ((t : Turn) (db : Db) → Counted n k db → Counts n f (q t db))
        → Holds env (Sweeping n k) (call tx q) (λ a. Sweeping n (f a)) Anything
    unfolding call
    Sweeping-call q counts = record {
      at = λ w h.
          let h' = arrive-Sweeping w h in
          in_view-Sweeping w.aborted (env w.at).fault _ (arrive (env w.at) w) h'
            (counts (env w.at) _ h'.view);
    }

  release_each-Sweeping :
      (os : List Order) {k : ℕ}
      → Holds env (Sweeping n k) (release_each os) (λ _. Sweeping n k) Anything
  unfolding release_each
  release_each-Sweeping [] = Holds-pure tt
  release_each-Sweeping (o ∷ os) {k} =
      Holds-bind _ _ _ (Sweeping-call (λ _. k) _ (release_stock-Counts n k o.product_id))
        λ _. release_each-Sweeping os

  settled-Waiting :
      {k : ℕ} (b : Bool) (t : Fault) (w : World)
      → Sweeping n k w
      → Post (λ _. Waiting n k) Anything (settled b t w).0 (settled b t w).1
  settled-Waiting true t w h = tt
  settled-Waiting false fine w h = record { shared = h.view }
  settled-Waiting false refused w h = tt
  settled-Waiting false lost w h = tt

  commit-Waiting : {k : ℕ} → Holds env (Sweeping n k) commit (λ _. Waiting n k) Anything
  unfolding commit
  commit-Waiting = record { at = λ w h. settled-Waiting _ _ _ (arrive-Sweeping w h) }

  after_expire-Waiting :
      (os : List Order)
      → Holds env (Sweeping n (length os)) (after_expire os) (λ k. Waiting n k) Anything
  unfolding after_expire
  after_expire-Waiting [] = Holds-return 0 (λ w h. record { shared = h.shared })
  after_expire-Waiting (o ∷ os) =
      Holds-bind _ _ _ (release_each-Sweeping (o ∷ os))
        λ _. Holds-bind _ _ _ commit-Waiting λ _. Holds-pure _

  begun-Sweeping :
      (t : Fault) (w : World)
      → Waiting n 0 w
      → Post (λ _. Sweeping n 0) Anything (begun t w).0 (begun t w).1
  begun-Sweeping fine w h = record { shared = h.shared; view = h.shared }
  begun-Sweeping refused w h = tt
  begun-Sweeping lost w h = tt

  begin-Sweeping : Holds env (Waiting n 0) begin (λ _. Sweeping n 0) Anything
  unfolding begin
  begin-Sweeping = record {
    at = λ w h.
        begun-Sweeping (env w.at).fault _ (record { shared = rw (nobody w.at w.shared) h.shared });
  }

  rolled-Waiting :
      (r : Result ℕ) (w : World)
      → Post (λ k. Waiting n k) Anything r w
      → Post (λ k. Waiting n k) Anything r (opened w)
  rolled-Waiting (ok k) w h = record { shared = h.shared }
  rolled-Waiting (err e) w h = tt

  sweep_expired-Waiting :
      (batch_size : ℕ)
      → Holds env (Waiting n 0) (sweep_expired batch_size) (λ k. Waiting n k) Anything
  unfolding sweep_expired in_transaction with_rollback
  sweep_expired-Waiting batch_size = Holds-bind begin _ _ begin-Sweeping λ _. record {
    at = λ w h. rolled-Waiting _ _ (
        (Holds-bind _ _ _ (Sweeping-call length _ (expire_orders-Counts n batch_size))
            after_expire-Waiting).at
          w h);
  }

module _ (env : Env) (nobody : (n : ℕ) (db : Db) → (env n).meanwhile db ≡ db) (batch_size : ℕ)
    (some_batch : 1 ≤ batch_size) where
  after_sweep-ends :
      (fuel n : ℕ) (again : M Bool) (r : Result ℕ) (w : World)
      → n < suc fuel
      → ((m : ℕ) → m < fuel → Waiting m 0 w → (again env w).0 ≡ ok true)
      → Post (λ k. Waiting n k) Anything r w
      → (after_sweep again batch_size r env w).0 ≡ ok true
  unfolding after_sweep pure
  after_sweep-ends fuel n again (err e) w bound ih h = refl
  after_sweep-ends fuel n again (ok k) w bound ih h = elim (Bool-cases (ltb k batch_size)) [
    | inl short ↦ rw short refl
    | inr full ↦ rw full (
        ih (n - k) (ground arith) (record {
          shared = record { distinct = h.shared.distinct; count = omega (arith, h.shared.count) };
        }))
  ]

  sweep_all-Waiting :
      (fuel n : ℕ) (w : World)
      → n < fuel
      → Waiting n 0 w
      → (sweep_all fuel batch_size env w).0 ≡ ok true
  unfolding sweep_all ◌>>=◌ attempt
  sweep_all-Waiting zero n w bound h = absurd (omega arith)
  sweep_all-Waiting (suc fuel) n w bound h =
      after_sweep-ends fuel n (sweep_all fuel batch_size) (sweep_expired batch_size env w).0
        (sweep_expired batch_size env w).1 bound
        (λ m small rest. sweep_all-Waiting fuel m (sweep_expired batch_size env w).1 small rest)
        ((sweep_expired-Waiting env nobody n batch_size).at w h)

  -- The sweeper's loop ends, whichever of its calls fail: after at most as many rounds as there are
  -- live orders, and one. A batch is of one order at least, no two orders share an id, and nobody else
  -- commits meanwhile.
  pub sweep_all-ends :
      (fuel : ℕ) (w : World)
      → shared_ids w.shared ≡ 0
      → all_live w.shared < fuel
      → (sweep_all fuel batch_size env w).0 ≡ ok true
  sweep_all-ends fuel w distinct bound =
      sweep_all-Waiting fuel (all_live w.shared) w bound
        (record { shared = record { distinct = distinct; count = omega arith } })
