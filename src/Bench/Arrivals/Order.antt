-- ===== src/Bench/Arrivals/Order.antt =====
-- A schedule is in order and has the requests of its rate.
use Prim.Native.Nat.{◌/◌}
use native.Mathlib.Nat.{
  div-lt_iff_lt-mul, le-div_iff_mul-le, div-mul-le_self, div-zero, mul-le-mul_right,
}
use doorbust.Base.{
  ℕ, zero, suc, ◌+◌, ◌*◌, ◌≤◌, ◌<◌, String, ◌==◌, ◌||◌, ==→eq, str_eq, eq_iff, ◌≡◌, refl, ap, ◌⊎◌,
  none, some, List, length, All, Bool-cases, inl, inr, arith,
}
use doorbust.Bench.Report.{Fraction}
use doorbust.Bench.Dispatch.{second}
use doorbust.Bench.Recorder.Sorting.{IsSorted}
use doorbust.Bench.Arrivals.{
  billion, request_count, fixed_offset, poisson_offset, fixed_from, poisson_from, build_schedule,
}

div_mono : (a b c : ℕ) → 0 < c → a ≤ b → a / c ≤ b / c
div_mono a b c pos h = (le-div_iff_mul-le pos).1 (omega (arith, div-mul-le_self a c))

fixed_mono :
    (rate : Fraction) (i j : ℕ) → 0 < rate.part → i ≤ j → fixed_offset rate i ≤ fixed_offset rate j
fixed_mono rate i j pos h =
    div_mono (i * (rate.whole * second)) (j * (rate.whole * second)) rate.part pos (grind arith)

below : (i q g x : ℕ) → i < q → q * g ≤ x → 0 < g → i * g < x
below i q g x h most pos = let step = mul-le-mul_right g h in grind arith

module _ (rate : Fraction) (pos : 0 < rate.part) where
  fixed-after : (i j n : ℕ) → i ≤ j → All (λ y. fixed_offset rate i ≤ y) (fixed_from rate j n)
  unfolding fixed_from
  fixed-after i j zero h = tt
  fixed-after i j (suc n) h = (fixed_mono rate i j pos h, fixed-after i (suc j) n (omega arith))

  fixed-IsSorted : (i n : ℕ) → IsSorted (fixed_from rate i n)
  unfolding fixed_from
  fixed-IsSorted i zero = tt
  fixed-IsSorted i (suc n) = (fixed-after i (suc i) n (omega arith), fixed-IsSorted (suc i) n)

  poisson_mono : (a b : ℕ) → a ≤ b → poisson_offset rate a ≤ poisson_offset rate b
  poisson_mono a b h =
      div_mono (a * (rate.whole * second)) (b * (rate.whole * second)) (rate.part * billion)
        (omega arith) (grind arith)

  module _ (draw : ℕ → ℕ) where
    poisson-after :
        (a b i n : ℕ) → a ≤ b → All (λ y. poisson_offset rate a ≤ y) (poisson_from rate draw b i n)
    unfolding poisson_from
    poisson-after a b i zero h = tt
    poisson-after a b i (suc n) h = (
      poisson_mono a (b + draw i) (omega arith),
      poisson-after a (b + draw i) (suc i) n (omega arith),
    )

    poisson-IsSorted : (a i n : ℕ) → IsSorted (poisson_from rate draw a i n)
    unfolding poisson_from
    poisson-IsSorted a i zero = tt
    poisson-IsSorted a i (suc n) = (
      poisson-after (a + draw i) (a + draw i) (suc i) n (omega arith),
      poisson-IsSorted (a + draw i) (suc i) n,
    )

    length-poisson : (a i n : ℕ) → length (poisson_from rate draw a i n) ≡ n
    unfolding poisson_from
    length-poisson a i zero = refl
    length-poisson a i (suc n) = omega (arith, length-poisson (a + draw i) (suc i) n)

  length-fixed : (i n : ℕ) → length (fixed_from rate i n) ≡ n
  unfolding fixed_from
  length-fixed i zero = refl
  length-fixed i (suc n) = omega (arith, length-fixed (suc i) n)

  module _ (d : ℕ) where
    fixed-lt : (i : ℕ) → i < request_count rate d → fixed_offset rate i < d
    fixed-lt i h =
        let gap = rate.whole * second in
        let whole : request_count rate d * gap ≤ d * rate.part =
          omega (arith, div-mul-le_self (rate.part * d) gap) in
        elim (Bool-cases (gap == 0)) [
          | inl e ↦
              let nothing = div-zero (rate.part * d) in
              let same = ap (λ (g : ℕ). (rate.part * d) / g) (==→eq gap 0 e) in
              absurd (omega (arith, h, same, nothing))
          | inr e ↦
              (div-lt_iff_lt-mul pos).1
                (below i (request_count rate d) gap (d * rate.part) h whole (ground arith))
        ]

    fixed-within :
        (i n : ℕ) → i + n ≤ request_count rate d → All (λ due. due < d) (fixed_from rate i n)
    unfolding fixed_from
    fixed-within i zero h = tt
    fixed-within i (suc n) h = (fixed-lt i (omega arith), fixed-within (suc i) n (omega arith))

-- As many requests as the rate asks for in the time, in the order in which they are due; by the fixed
-- process all of them before the time is over.
pub record IsSchedule (arrivals : String) (rate : Fraction) (d : ℕ) (out : List ℕ) : Type 0 where
  pub count : length out ≡ request_count rate d
  pub some : 1 ≤ length out
  pub sorted : IsSorted out
  pub within : All (λ due. due < d) out ⊎ (arrivals ≡ "poisson")

module _ (arrivals : String) (rate : Fraction) (d : ℕ) (draw : ℕ → ℕ) where
  no_schedule : (out : List ℕ) → none ≡ some out → ⊥
  no_schedule out h = cc

  same_list : (built out : List ℕ) → some built ≡ some out → out ≡ built
  same_list built out h = cc

  -- A schedule that is built has as many requests as the rate asks for in the time, at least one, in
  -- the order in which they are due; by the fixed process all of them are due before the time is over.
  pub build_schedule-IsSchedule :
      (out : List ℕ)
      → build_schedule arrivals rate d draw ≡ some out
      → IsSchedule arrivals rate d out
  unfolding build_schedule
  build_schedule-IsSchedule out h =
      let n = request_count rate d in
      elim (Bool-cases (rate.part == 0 || n == 0)) [
        | inl e ↦ absurd (no_schedule out (rw e at h))
        | inr e ↦
            let pos : 0 < rate.part = ground arith in
            let any : 1 ≤ n = ground arith in
            elim (Bool-cases (str_eq arrivals "fixed")) [
              | inl fixed ↦
                  rw (same_list (fixed_from rate 0 n) out (rw fixed at (rw e at h))) (record {
                    count = length-fixed rate pos 0 n;
                    some = omega (arith, length-fixed rate pos 0 n);
                    sorted = fixed-IsSorted rate pos 0 n;
                    within = inl (fixed-within rate pos d 0 n (omega arith));
                  })
              | inr other ↦ elim (Bool-cases (str_eq arrivals "poisson")) [
                | inl poisson ↦
                    rw
                      (same_list (poisson_from rate draw 0 0 n) out
                        (rw poisson at (rw other at (rw e at h))))
                      (record {
                        count = length-poisson rate pos draw 0 0 n;
                        some = omega (arith, length-poisson rate pos draw 0 0 n);
                        sorted = poisson-IsSorted rate pos draw 0 0 n;
                        within = inr ((eq_iff arrivals "poisson").0 poisson);
                      })
                | inr unknown ↦ absurd (no_schedule out (rw unknown at (rw other at (rw e at h))))
              ]
            ]
      ]
