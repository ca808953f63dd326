-- ===== src/Bench/Dispatch.antt =====
-- bench/internal/loadgen/run.go: the schedule is sent, open-loop, and what comes back. Times are in
-- nanoseconds from the start.
pub mod Capacity
use doorbust.Base.{
  ℕ, ◌+◌, ◌-◌, ◌*◌, Bool, true, false, ltb, leb, ◌&&◌, Option, none, some, List, [], ◌∷◌, length,
  keep, map, if◌then◌else◌,
}
use doorbust.Bench.Outcomes
use doorbust.Bench.Outcomes.{Outcome}
use doorbust.Bench.Report.{Fraction, Latencies, Schedule}
use doorbust.Bench.Recorder.{Sample, window, collect, schedule_stats, total_reserved, total_unknown}

-- What happens to a request: how much the_later than it could the dispatcher goes on, how long the answer
-- takes, and what it is.
pub record Send : Type 0 where
  pub delay : ℕ
  pub took : ℕ
  pub outcome : Outcome

-- A request of the schedule, sent or given up.
pub record Shot : Type 0 where
  pub due : ℕ
  pub sent_at : ℕ
  pub done : ℕ
  pub sent : Bool
  pub outcome : Outcome

abbrev pub the_later : ℕ → ℕ → ℕ
the_later a b = if ltb a b then b else a

-- waitUntil: not before the request is due, nor before the one before it has been dealt with.
abbrev pub dispatched_at : ℕ → ℕ → Send → ℕ
dispatched_at due prev s = the_later due prev + s.delay

-- sem.TryAcquire: the answers that are still awaited hold a place each.
abbrev pub awaited : ℕ → List ℕ → List ℕ
awaited now flying = keep (λ done. ltb now done) flying

abbrev pub shot : ℕ → ℕ → Send → Shot
shot due at s = record {
  due = due;
  sent_at = at;
  done = at + s.took;
  sent = true;
  outcome = s.outcome;
}

abbrev pub given_up : ℕ → ℕ → Shot
given_up due at = record {
  due = due;
  sent_at = at;
  done = at;
  sent = false;
  outcome = Outcomes.generator_saturated;
}

-- TryAcquire and what follows: the request goes out and holds a place, or is given up.
abbrev pub has_room : ℕ → List ℕ → Bool
has_room max_in_flight free = ltb (length free) max_in_flight

abbrev pub fire : Bool → ℕ → ℕ → Send → Shot
fire room due at s = if room then shot due at s else given_up due at

abbrev pub acquire : Bool → ℕ → List ℕ → List ℕ
acquire room done free = if room then done ∷ free else free

-- The loop over the schedule, with what will happen to each request.
unfoldable pub dispatch : ℕ → ℕ → List ℕ → List (ℕ × Send) → List Shot
dispatch max_in_flight prev flying [] = []
dispatch max_in_flight prev flying ((due, s) ∷ rest) =
    let at = dispatched_at due prev s in
    let free = awaited at flying in
    let room = has_room max_in_flight free in
    fire room due at s ∷ dispatch max_in_flight at (acquire room (at + s.took) free) rest

-- What the recorder keeps of it; nothing but the lag and the outcome where it was not sent.
abbrev pub sample : Shot → Sample
sample h = record {
  arrival = if h.sent then h.done - h.due else 0;
  service = if h.sent then h.done - h.sent_at else 0;
  lag = h.sent_at - h.due;
  outcome = h.outcome;
  sent = h.sent;
}

-- wg.Wait()
abbrev pub elapsed : ℕ → List Shot → ℕ
elapsed end [] = end
elapsed end (h ∷ hs) = elapsed (the_later end h.done) hs

abbrev pub second : ℕ
second = 1000000000

pub record Throughput : Type 0 where
  pub goodput_per_sec : Fraction
  pub accepted_per_sec : Fraction

pub record Results : Type 0 where
  pub latency : Latencies
  pub outcomes : Outcome → ℕ
  pub schedule : Schedule
  pub throughput : Throughput
  pub reserved : ℕ
  pub reserved_total : ℕ
  pub unknown_total : ℕ
  pub measured : ℕ

abbrev pub per_sec : ℕ → ℕ → Fraction
per_sec n measured = record { part = n * second; whole = measured }

abbrev results : ℕ → ℕ → List Sample → Results
results measured from r =
    let (latency, counts) = collect from r in
    record {
      latency = latency;
      outcomes = counts;
      schedule = schedule_stats from r;
      throughput = record {
        goodput_per_sec = per_sec (counts Outcomes.reserved) measured;
        accepted_per_sec =
            per_sec (counts Outcomes.reserved + counts Outcomes.out_of_stock) measured;
      };
      reserved = counts Outcomes.reserved;
      reserved_total = total_reserved r;
      unknown_total = total_unknown r;
      measured = measured;
    }

-- `none` where the warm-up has taken the whole run.
unfoldable pub run : ℕ → ℕ → List (ℕ × Send) → Option Results
run max_in_flight warmup sends =
    let shots = dispatch max_in_flight 0 [] sends in
    let end = elapsed 0 shots in
    if leb end warmup
    then none
    else some (
        results (end - warmup) (window (map (λ (p : ℕ × Send). p.0) sends) warmup)
          (map sample shots))
