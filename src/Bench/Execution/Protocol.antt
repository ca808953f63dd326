-- ===== src/Bench/Execution/Protocol.antt =====
-- Which order a run keeps to, whatever fails.
use doorbust.Base.{ℕ, Bool, true, false, not, ◌≡◌, refl, Option, List, length}
use doorbust.Bench.Workload.{Plan, plan_for}
use doorbust.Bench.Dispatch.{Results}
use doorbust.Bench.Arrivals.{build_schedule}
use doorbust.Bench.Execution.{
  Measurement, Options, Surroundings, checked, closed_issuer, closed_pool, connect, migrate,
  truncate, make_probe_table, seed_products, start_issuer, mint_buyers, seed_customers, start_app,
  await_ready, find_customer, probe_exec, judge, note, stop, measure, with_issuer, with_pool, start,
  execute,
}
use doorbust.Bench.Execution.Automaton.{Phase, at_rest, watch, IsOrderly}
use doorbust.Bench.Execution.Following.{
  Does, step_and, note_and, get_and, defer_and, load_and, stop_and,
}

-- The phases of a run.
abbrev phase : Bool → Bool → Bool → Bool → Phase
phase issuer app emptied full = record {
  pool = true;
  issuer = issuer;
  app = app;
  emptied = emptied;
  loaded = full;
}

-- The app runs unless it has been stopped; the issuer and the pool are open.
abbrev Measured : {A : Type 0} → Option A → Phase → Bool → Type 0
Measured r s stopped = (s.pool ≡ true) × (s.issuer ≡ true) × (s.app ≡ not stopped)

abbrev WithIssuer : {A : Type 0} → Option A → Phase → Bool → Type 0
WithIssuer r s stopped = (s.pool ≡ true) × (s.issuer ≡ true) × (s.app ≡ false)

abbrev WithPool : {A : Type 0} → Option A → Phase → Bool → Type 0
WithPool r s stopped = (s.pool ≡ true) × (s.issuer ≡ false) × (s.app ≡ false)

abbrev Closed : {A : Type 0} → Option A → Phase → Bool → Type 0
Closed r s stopped = (s.pool ≡ false) × (s.issuer ≡ false) × (s.app ≡ false)

module _ (o : Options) (out : Surroundings) where
  judge-Does :
      (plan : Plan) (r : Results)
      → Does (judge o plan r) out (phase true false true true) true Measured
  unfolding watch
  judge-Does plan r = record {
    last = phase true false true true;
    followed = refl;
    holds = (refl, refl, refl);
  }

  measure-Does :
      (schedule : List ℕ) (plan : Plan)
      → Does (measure o schedule plan) out (phase true true true false) false Measured
  unfolding measure
  measure-Does schedule plan =
      let s = phase true true true false in
      let after = phase true false true true in
      step_and s await_ready s s _ refl refl (refl, refl, refl)
        (step_and s find_customer s s _ refl refl (refl, refl, refl)
          (step_and s probe_exec s s _ refl refl (refl, refl, refl)
            (load_and s o schedule (phase true true true true) _ refl (refl, refl, refl)
              (λ results.
                stop_and (phase true true true true) after _ refl
                  (note_and after checked after _ refl (judge-Does plan results))))))

  -- What stopping the app makes of it.
  stop-Does :
      (r : Option Measurement) (b : Phase) (up : Bool)
      → Measured r b up
      → Does stop out b up (λ _ b' up'. WithIssuer r b' up')
  unfolding stop watch
  stop-Does r b true h = record { last = b; followed = refl; holds = (h.0, h.1, h.2) }
  stop-Does r b false h = record {
    last = record b { app = false };
    followed = rw h.2 refl;
    holds = (h.0, h.1, refl);
  }

  with_issuer-Does :
      (schedule : List ℕ) (plan : Plan)
      → Does (with_issuer o schedule plan) out (phase true false true false) false WithIssuer
  unfolding with_issuer
  with_issuer-Does schedule plan =
      let s = phase true false true false in
      step_and s mint_buyers s s _ refl refl (refl, refl, refl)
        (step_and s seed_customers s s _ refl refl (refl, refl, refl)
          (step_and s start_app (phase true true true false) s _ refl refl (refl, refl, refl)
            (defer_and (phase true true true false) stop (measure o schedule plan)
              (measure-Does schedule plan) stop-Does)))

  close_issuer-Does :
      (r : Option Measurement) (b : Phase) (up : Bool)
      → WithIssuer r b up
      → Does (note closed_issuer) out b up (λ _ b' up'. WithPool r b' up')
  unfolding note watch
  close_issuer-Does r b up h = record {
    last = record b { issuer = false };
    followed = rw (h.1, h.2) refl;
    holds = (h.0, refl, h.2);
  }

  with_pool-Does : Does (with_pool o out.draw) out (phase false false false false) false WithPool
  unfolding with_pool
  with_pool-Does =
      let s = phase false false false false in
      let t = phase false false true false in
      step_and s migrate s s _ refl refl (refl, refl, refl)
        (step_and s truncate t s _ refl refl (refl, refl, refl)
          (step_and t make_probe_table t t _ refl refl (refl, refl, refl)
            (get_and t (build_schedule o.arrivals o.rate o.duration out.draw) _ (refl, refl, refl)
              (λ schedule.
                get_and t (plan_for o.shape (length schedule)) _ (refl, refl, refl)
                  (λ plan.
                    step_and t seed_products t t _ refl refl (refl, refl, refl)
                      (step_and t start_issuer (phase true false true false) t _ refl refl
                        (refl, refl, refl)
                        (defer_and (phase true false true false) (note closed_issuer)
                          (with_issuer o schedule plan) (with_issuer-Does schedule plan)
                          close_issuer-Does)))))))

  close_pool-Does :
      (r : Option Measurement) (b : Phase) (up : Bool)
      → WithPool r b up
      → Does (note closed_pool) out b up (λ _ b' up'. Closed r b' up')
  unfolding note watch
  close_pool-Does r b up h = record {
    last = record b { pool = false };
    followed = rw (h.0, h.1, h.2) refl;
    holds = (refl, h.1, h.2);
  }

  start-Does : Does (start o out) out at_rest false Closed
  unfolding start
  start-Does =
      let s = at_rest in
      get_and s _ _ (refl, refl, refl)
        (λ _.
          get_and s _ _ (refl, refl, refl)
            (λ _.
              get_and s _ _ (refl, refl, refl)
                (λ _.
                  get_and s _ _ (refl, refl, refl)
                    (λ _.
                      get_and s _ _ (refl, refl, refl)
                        (λ _.
                          step_and s connect (phase false false false false) s _ refl refl
                            (refl, refl, refl)
                            (defer_and (phase false false false false) (note closed_pool)
                              (with_pool o out.draw) with_pool-Does close_pool-Does))))))

-- Whatever fails in a run, the automaton follows it to the end: nothing is read or written but through
-- an open pool, products and customers are seeded in emptied tables only, the load goes to a running
-- app, the database is checked when the load is over and the app has been stopped; and whatever has
-- been opened is closed, the app before the issuer, and the issuer before the pool.
pub execute-IsOrderly : (o : Options) (out : Surroundings) → IsOrderly (execute o out false).1
unfolding execute
execute-IsOrderly o out =
    let d = start-Does o out in record { last = d.last; followed = d.followed; closed = d.holds }
