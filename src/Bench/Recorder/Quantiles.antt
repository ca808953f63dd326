-- ===== src/Bench/Recorder/Quantiles.antt =====
-- The reported percentiles are quantiles of the samples, and how many late sends they bear.
use Prim.Native.Nat.{◌/◌}
use doorbust.Base.{
  ℕ, ◌+◌, ◌-◌, ◌*◌, ◌≤◌, ◌<◌, ltb, leb, ◌≡◌, List, [], ◌∷◌, length, sum, Bool-cases, inl, inr,
  arith,
}
use doorbust.Bench.Report.{Percentiles, trust_p99, trusted_percentile_for}
use doorbust.Bench.Recorder.{sort, elem_at, rank, at_quantile, percentiles_of, one_if}
use doorbust.Bench.Recorder.Sorting.{
  count_at_most, count_at_least, sum-sort, length-sort, sort-IsSorted, elem_at_rank,
}

-- More than q thousandths of the samples are at most v, and the other thousandths at least v.
pub record IsQuantile (q : ℕ) (xs : List ℕ) (v : ℕ) : Type 0 where
  pub below : q * length xs < 1000 * count_at_most v xs
  pub above : 1000 * length xs ≤ 1000 * count_at_least v xs + q * length xs

times-lt : (q n : ℕ) → q < 1000 → 0 < n → q * n < 1000 * n
times-lt q n h pos = grind arith

-- The index that is taken, and what it leaves below and above.
rank_bounds :
    (q n : ℕ)
    → q < 1000
    → 0 < n
    → (rank q n < n) × (1000 * rank q n ≤ q * n) × (q * n < 1000 * rank q n + 1000)
rank_bounds q n h pos =
    let less = times-lt q n h pos in
    elim (Bool-cases (leb n ((q * n) / 1000))) [
      | inl e ↦ absurd (ground arith)
      | inr e ↦ rw e (ground arith, omega arith, omega arith)
    ]

at_quantile-IsQuantile :
    (q : ℕ) (xs : List ℕ) → q < 1000 → 0 < length xs → IsQuantile q xs (at_quantile (sort xs) q)
unfolding at_quantile
at_quantile-IsQuantile q xs h pos =
    let n = length (sort xs) in
    let same = length-sort xs in
    let (within, low, high) = rank_bounds q (length xs) h pos in
    let (below, above) =
      elem_at_rank (rank q (length xs)) (sort xs) (sort-IsSorted xs) (omega arith) in
    let v = elem_at (rank q (length xs)) (sort xs) in
    let lower = sum-sort (λ x. one_if (leb x v)) xs in
    let upper = sum-sort (λ x. one_if (leb v x)) xs in
    rw same (record { below = omega arith; above = omega arith })

-- All at once, of the percentiles of a report.
pub record AreQuantiles (xs : List ℕ) (p : Percentiles) : Type 0 where
  pub p50 : IsQuantile 500 xs p.p50
  pub p95 : IsQuantile 950 xs p.p95
  pub p99 : IsQuantile 990 xs p.p99
  pub p999 : IsQuantile 999 xs p.p999
  pub max : count_at_most p.max xs ≡ length xs
  pub count : p.count ≡ length xs

at_most-le : (v : ℕ) (xs : List ℕ) → count_at_most v xs ≤ length xs
unfolding sum
at_most-le v [] = omega arith
at_most-le v (x ∷ xs) = ground (arith, at_most-le v xs)

max_at_most :
    (x : ℕ) (xs : List ℕ)
    → count_at_most (elem_at (length (sort (x ∷ xs)) - 1) (sort (x ∷ xs))) (x ∷ xs)
      ≡ length (x ∷ xs)
max_at_most x xs =
    let s = sort (x ∷ xs) in
    let same = length-sort (x ∷ xs) in
    let (below, above) = elem_at_rank (length s - 1) s (sort-IsSorted (x ∷ xs)) (omega arith) in
    let v = elem_at (length s - 1) s in
    let lower = sum-sort (λ z. one_if (leb z v)) (x ∷ xs) in
    let most = at_most-le v (x ∷ xs) in omega arith

-- The reported percentiles are quantiles of the samples: more than q of them are at most the reported
-- value, and all but q of them at least. No sample exceeds the reported maximum.
pub percentiles_of-AreQuantiles :
    (x : ℕ) (xs : List ℕ) → AreQuantiles (x ∷ xs) (percentiles_of (x ∷ xs))
unfolding percentiles_of
percentiles_of-AreQuantiles x xs = record {
  p50 = at_quantile-IsQuantile 500 (x ∷ xs) (omega arith) (omega arith);
  p95 = at_quantile-IsQuantile 950 (x ∷ xs) (omega arith) (omega arith);
  p99 = at_quantile-IsQuantile 990 (x ∷ xs) (omega arith) (omega arith);
  p999 = at_quantile-IsQuantile 999 (x ∷ xs) (omega arith) (omega arith);
  max = max_at_most x xs;
  count = length-sort (x ∷ xs);
}

-- How many samples exceed a bound.
abbrev pub above : ℕ → List ℕ → ℕ
above b xs = sum (λ x. one_if (ltb b x)) xs

above-at_least : (b v : ℕ) (xs : List ℕ) → b < v → count_at_least v xs ≤ above b xs
unfolding sum
above-at_least b v [] h = omega arith
above-at_least b v (x ∷ xs) h = ground (arith, above-at_least b v xs h)

above-at_most : (b v : ℕ) (xs : List ℕ) → v ≤ b → count_at_most v xs + above b xs ≤ length xs
unfolding sum
above-at_most b v [] h = omega arith
above-at_most b v (x ∷ xs) h = ground (arith, above-at_most b v xs h)

-- Where fewer than one in a hundred samples exceed a bound, the reported p99 does not.
p99-le :
    (x : ℕ) (xs : List ℕ) (bound : ℕ)
    → 100 * above bound (x ∷ xs) < length (x ∷ xs)
    → (percentiles_of (x ∷ xs)).p99 ≤ bound
p99-le x xs bound few =
    let v = (percentiles_of (x ∷ xs)).p99 in
    let q = (percentiles_of-AreQuantiles x xs).p99 in
    elim (Bool-cases (ltb bound v)) [
      | inl e ↦
          let late : bound < v = ground arith in
          absurd (omega (arith, above-at_least bound v (x ∷ xs) late, q.above))
      | inr e ↦ ground arith
    ]

-- A run one in a hundred of whose sends are late is trusted up to p99, although, where the late ones
-- are the samples above a bound, the reported p99 is one of these.
pub trusted_percentile_for-contaminated :
    (x : ℕ) (xs : List ℕ) (bound : ℕ)
    → 100 * above bound (x ∷ xs) ≡ length (x ∷ xs)
    → (trusted_percentile_for (record { part = above bound (x ∷ xs); whole = length (x ∷ xs) })
        ≡ trust_p99)
      × (bound < (percentiles_of (x ∷ xs)).p99)
unfolding trusted_percentile_for
trusted_percentile_for-contaminated x xs bound exact =
    let v = (percentiles_of (x ∷ xs)).p99 in
    let q = (percentiles_of-AreQuantiles x xs).p99 in
    (
      ground arith,
      elim (Bool-cases (ltb bound v)) [
        | inl e ↦ ground arith
        | inr e ↦
            let early : v ≤ bound = ground arith in
            absurd (omega (arith, above-at_most bound v (x ∷ xs) early, q.below))
      ],
    )
