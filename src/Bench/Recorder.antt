-- ===== src/Bench/Recorder.antt =====
-- bench/internal/loadgen/recorder.go: one sample for each scheduled request, and the figures that are
-- made of them. The slices are one list; nanoseconds.
pub mod Sorting
pub mod Quantiles
pub mod Totals
use doorbust.Base.{
  ℕ, zero, suc, ◌+◌, ◌-◌, ◌*◌, String, Bool, true, false, ltb, leb, ◌&&◌, ◌||◌, List, [], ◌∷◌,
  length, keep, map, sum, if◌then◌else◌,
}
use Prim.Native.Nat.{◌/◌}
use doorbust.Bench.Outcomes
use doorbust.Bench.Outcomes.{Outcome}
use doorbust.Bench.Report.{Fraction, Percentiles, Latencies, Schedule, trusted_percentile_for}

pub record Sample : Type 0 where
  -- from the time at which the request was due, and from the one at which it was sent
  pub arrival : ℕ
  pub service : ℕ
  pub lag : ℕ
  pub outcome : Outcome
  pub sent : Bool

-- slices.Sort
abbrev pub insert : ℕ → List ℕ → List ℕ
insert x [] = x ∷ []
insert x (y ∷ ys) = let rest = insert x ys in if leb x y then x ∷ y ∷ ys else y ∷ rest

unfoldable pub sort : List ℕ → List ℕ
sort [] = []
sort (x ∷ xs) = insert x (sort xs)

-- The element at an index; 0 beyond the end, where Go panics.
abbrev pub elem_at : ℕ → List ℕ → ℕ
elem_at i [] = 0
elem_at zero (x ∷ xs) = x
elem_at (suc i) (x ∷ xs) = elem_at i xs

-- `int(q * float64(n))` for a quantile in thousandths, and the last index at most.
abbrev pub rank : ℕ → ℕ → ℕ
rank q n = let i = (q * n) / 1000 in if leb n i then n - 1 else i

unfoldable pub at_quantile : List ℕ → ℕ → ℕ
at_quantile s q = elem_at (rank q (length s)) s

abbrev no_percentiles : Percentiles
no_percentiles = record { p50 = 0; p95 = 0; p99 = 0; p999 = 0; max = 0; count = 0 }

abbrev of_sorted : List ℕ → Percentiles
of_sorted s = record {
  p50 = at_quantile s 500;
  p95 = at_quantile s 950;
  p99 = at_quantile s 990;
  p999 = at_quantile s 999;
  max = elem_at (length s - 1) s;
  count = length s;
}

unfoldable pub percentiles_of : List ℕ → Percentiles
percentiles_of [] = no_percentiles
percentiles_of (x ∷ xs) = of_sorted (sort (x ∷ xs))

-- The first request that is due when the warm-up is over.
abbrev pub window : List ℕ → ℕ → ℕ
window [] warmup = 0
window (due ∷ schedule) warmup = if leb warmup due then 0 else suc (window schedule warmup)

abbrev pub is : Outcome → Outcome → Bool
is Outcomes.reserved Outcomes.reserved = true
is Outcomes.out_of_stock Outcomes.out_of_stock = true
is Outcomes.not_found Outcomes.not_found = true
is Outcomes.unauthorized Outcomes.unauthorized = true
is Outcomes.conflict_other Outcomes.conflict_other = true
is Outcomes.server_error Outcomes.server_error = true
is Outcomes.timeout Outcomes.timeout = true
is Outcomes.connect_error Outcomes.connect_error = true
is Outcomes.generator_saturated Outcomes.generator_saturated = true
is _ _ = false

abbrev pub one_if : Bool → ℕ
one_if b = if b then 1 else 0

-- Of the whole run, the warm-up included.
unfoldable pub total_reserved : List Sample → ℕ
total_reserved r = sum (λ s. one_if (s.sent && is Outcomes.reserved s.outcome)) r

unfoldable pub total_unknown : List Sample → ℕ
total_unknown r =
    sum (λ s. one_if (is Outcomes.timeout s.outcome || is Outcomes.connect_error s.outcome)) r

abbrev pub from_index : ℕ → List Sample → List Sample
from_index zero r = r
from_index (suc n) [] = []
from_index (suc n) (s ∷ r) = from_index n r

-- The entry of the outcome map.
abbrev pub count : Outcome → List Sample → ℕ
count o r = sum (λ s. one_if (is o s.outcome)) r

abbrev sent_as : Outcome → Sample → Bool
sent_as o s = s.sent && is o s.outcome

unfoldable pub collect : ℕ → List Sample → Latencies × (Outcome → ℕ)
collect from r =
    let w = from_index from r in
    (
      record {
        overall = percentiles_of (map (λ (s : Sample). s.arrival) (keep (λ s. s.sent) w));
        reserved =
            percentiles_of (map (λ (s : Sample). s.arrival) (keep (sent_as Outcomes.reserved) w));
        out_of_stock =
            percentiles_of
              (map (λ (s : Sample). s.arrival) (keep (sent_as Outcomes.out_of_stock) w));
        service_overall = percentiles_of (map (λ (s : Sample). s.service) (keep (λ s. s.sent) w));
      },
      λ o. count o w,
    )

abbrev pub millisecond : ℕ
millisecond = 1000000

abbrev pub is_late : Sample → Bool
is_late s = s.sent && ltb millisecond s.lag

unfoldable pub schedule_stats : ℕ → List Sample → Schedule
schedule_stats from r =
    let w = from_index from r in
    let p = percentiles_of (map (λ (s : Sample). s.lag) (keep (λ s. s.sent) w)) in
    let late = sum (λ s. one_if (is_late s)) w in
    let fraction : Fraction = record { part = late; whole = length r - from } in
    record {
      requests = length r - from;
      lag_p50 = p.p50;
      lag_p99 = p.p99;
      lag_max = p.max;
      late_requests = late;
      late_fraction = fraction;
      trusted_percentile = trusted_percentile_for fraction;
      generator_saturated = count Outcomes.generator_saturated w;
    }
