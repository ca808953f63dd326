-- ===== src/Bench/Recorder/Totals.antt =====
-- No request is left out of the outcome map.
use doorbust.Base.{ℕ, zero, suc, ◌-◌, ◌≡◌, refl, List, [], ◌∷◌, length, sum, sum-add, arith}
use doorbust.Bench.Outcomes
use doorbust.Bench.Outcomes.{Outcome, outcomes}
use doorbust.Bench.Recorder.{Sample, is, one_if, from_index, count, collect, schedule_stats}

length-from_index : (n : ℕ) (r : List Sample) → length (from_index n r) ≡ length r - n
length-from_index zero r = omega arith
length-from_index (suc n) [] = omega arith
length-from_index (suc n) (s ∷ r) = omega (arith, length-from_index n r)

-- Each outcome is one of the classes, and one only.
one_class : (o : Outcome) → sum (λ c. one_if (is c o)) outcomes ≡ 1
unfolding sum
one_class Outcomes.reserved = refl
one_class Outcomes.out_of_stock = refl
one_class Outcomes.not_found = refl
one_class Outcomes.unauthorized = refl
one_class Outcomes.conflict_other = refl
one_class Outcomes.server_error = refl
one_class Outcomes.timeout = refl
one_class Outcomes.connect_error = refl
one_class Outcomes.generator_saturated = refl

count-total : (r : List Sample) → sum (λ c. count c r) outcomes ≡ length r
unfolding sum
count-total [] = refl
count-total (s ∷ r) = omega (
  arith,
  sum-add (λ c. one_if (is c s.outcome)) (λ c. count c r) (λ c. count c (s ∷ r)) outcomes
      (λ c. refl),
  one_class s.outcome,
  count-total r,
)

-- The outcomes of the measured window add up to its requests: what was never sent is counted too, and
-- it is what the schedule reports as saturated.
pub collect-total :
    (from : ℕ) (r : List Sample)
    → (sum (collect from r).1 outcomes ≡ (schedule_stats from r).requests)
      × ((collect from r).1 Outcomes.generator_saturated
          ≡ (schedule_stats from r).generator_saturated)
unfolding collect schedule_stats
collect-total from r =
    (omega (arith, count-total (from_index from r), length-from_index from r), refl)
