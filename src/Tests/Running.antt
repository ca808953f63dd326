-- ===== src/Tests/Running.antt =====
-- A small run of the benchmark.
use doorbust.Base.{ℕ, ◌≤◌, Bool, true, false, ◌≡◌, refl, some, none, List, [], ◌∷◌, map, arith}
use doorbust.Store.{ok}
use doorbust.Session.{◌>>◌}
use doorbust.Session.Calm.{idle}
use doorbust.Bench.Outcomes
use doorbust.Bench.Outcomes.{Outcome}
use doorbust.Bench.Report.{Fraction, Invariants, Schedule, trust_p99, tier_loopback, new}
use doorbust.Bench.Validity.{Figures, apply_validity}
use doorbust.Bench.Validity.Judgement.{IsJudged, applies, reasons, apply_validity-IsJudged}
use doorbust.Bench.Workload.{uncontended, plan_for}
use doorbust.Bench.Workload.Plans.{IsFit, plan_for-IsFit}
use doorbust.Bench.Dispatch.{Send, dispatch, sample}
use doorbust.Bench.Dispatch.Capacity.{AreTimed, in_flight, dispatch-AreTimed}
use doorbust.Bench.Arrivals.{build_schedule, fixed_from}
use doorbust.Bench.Arrivals.Order.{IsSchedule, build_schedule-IsSchedule}
use doorbust.Bench.Seeding.{reset, seed_products}
use doorbust.Bench.Seeding.Fresh.{counting}
use doorbust.Bench.Seeding.Seeded.{AreSeeded, seed_products-AreSeeded}
use doorbust.Bench.Execution.{Options, Surroundings, Step, execute}
use doorbust.Bench.Execution.Automaton.{IsOrderly}
use doorbust.Bench.Execution.Protocol.{execute-IsOrderly}
use doorbust.Tests.Shop.{shop}

-- Ten requests a second.
abbrev ten : Fraction
ten = record { part = 10; whole = 1 }

abbrev half_a_second : ℕ
half_a_second = 500000000

abbrev metronome : List ℕ
metronome = 0 ∷ 100000000 ∷ 200000000 ∷ 300000000 ∷ 400000000 ∷ []

abbrev no_draw : ℕ → ℕ
no_draw i = 0

metronome_built : build_schedule "fixed" ten half_a_second no_draw ≡ some metronome
unfolding build_schedule fixed_from
metronome_built = refl

build_schedule-IsSchedule_example : IsSchedule "fixed" ten half_a_second metronome
build_schedule-IsSchedule_example =
    build_schedule-IsSchedule "fixed" ten half_a_second no_draw metronome metronome_built

-- The answers take longer than the gap; two may be awaited at once.
abbrev slow : Send
slow = record { delay = 5; took = 250000000; outcome = Outcomes.reserved }

abbrev sends : List (ℕ × Send)
sends = (0, slow) ∷ (100000000, slow) ∷ (200000000, slow) ∷ (300000000, slow) ∷ []

dispatch-AreTimed_example :
    AreTimed 2 0 [] sends (map sample (dispatch 2 0 [] sends))
    × (in_flight 200000010 (dispatch 2 0 [] sends) ≤ 2)
dispatch-AreTimed_example = dispatch-AreTimed 2 200000010 sends

wide : plan_for "uncontended" 1000 ≡ some (uncontended 1000)
unfolding plan_for
wide = refl

plan_for-IsFit_example : IsFit 1000 17 3 "uncontended" (uncontended 1000)
plan_for-IsFit_example =
    plan_for-IsFit 1000 17 3 (omega arith) (omega arith) "uncontended" (uncontended 1000) wide

abbrev one_error : Outcome → ℕ
one_error Outcomes.server_error = 1
one_error _ = 0

abbrev late_schedule : Schedule
late_schedule = record {
  requests = 1000;
  lag_p50 = 10;
  lag_p99 = 2000000;
  lag_max = 3000000;
  late_requests = 5;
  late_fraction = record { part = 5; whole = 1000 };
  trusted_percentile = trust_p99;
  generator_saturated = 0;
}

abbrev found_sound : Invariants
found_sound = record { passed = true; checks = [] }

abbrev seen : Figures
seen = record {
  schedule = late_schedule;
  outcomes = one_error;
  invariants = found_sound;
  git_dirty = false;
}

apply_validity-IsJudged_example :
    IsJudged (applies seen) reasons true (apply_validity seen (new tier_loopback))
apply_validity-IsJudged_example = apply_validity-IsJudged seen tier_loopback

seed_products-AreSeeded_example :
    let run = (reset >> seed_products (λ i. "bench") 3 12) (counting 50 100) (idle shop) in
    (run.0 ≡ ok (101 ∷ 103 ∷ 105 ∷ [])) × AreSeeded 3 12 (101 ∷ 103 ∷ 105 ∷ []) run.1.shared
seed_products-AreSeeded_example = seed_products-AreSeeded (λ i. "bench") 3 12 50 100 (idle shop)

abbrev options : Options
options = record {
  dsn_path = some "/doorbust_Bench";
  allow_unsafe_target = false;
  arm = "cte";
  shape = "uncontended";
  arrivals = "fixed";
  rate = ten;
  duration = half_a_second;
  warmup = 100000000;
  max_in_flight = 2;
  git_sha = "";
  tier = tier_loopback;
  allow_dirty = false;
}

-- The app does not come up.
abbrev comes_up : Step → Bool
comes_up Step.await_ready = false
comes_up _ = true

abbrev outside : Surroundings
outside = record {
  sha = "abc";
  dirty = false;
  file_limit = some 256;
  available_bytes = none;
  works = comes_up;
  draw = no_draw;
  send = λ i. slow;
  invariants = λ quantity reserved unknown. found_sound;
}

execute-IsOrderly_example : IsOrderly (execute options outside false).1
execute-IsOrderly_example = execute-IsOrderly options outside
