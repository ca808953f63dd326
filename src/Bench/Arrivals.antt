-- ===== src/Bench/Arrivals.antt =====
-- bench/internal/loadgen/schedule.go: when each request is due. The rate is a fraction, of requests a
-- second; an exponential draw is a number of billionths; offsets are exact until they are cut to
-- nanoseconds.
pub mod Order
use Prim.Native.Nat.{◌/◌}
use doorbust.Base.{
  ℕ, zero, suc, ◌+◌, ◌*◌, String, Bool, true, false, ◌==◌, ◌||◌, str_eq, Option, none, some, List,
  [], ◌∷◌, if◌then◌else◌,
}
use doorbust.Bench.Report.{Fraction}
use doorbust.Bench.Dispatch.{second}

abbrev pub billion : ℕ
billion = 1000000000

-- int(rate * d.Seconds()), with the exact product in place of the one that a float64 holds
abbrev pub request_count : Fraction → ℕ → ℕ
request_count rate d = (rate.part * d) / (rate.whole * second)

-- i requests on, at the mean gap.
abbrev pub fixed_offset : Fraction → ℕ → ℕ
fixed_offset rate i = (i * (rate.whole * second)) / rate.part

-- The mean gap times a sum of draws.
abbrev pub poisson_offset : Fraction → ℕ → ℕ
poisson_offset rate drawn = (drawn * (rate.whole * second)) / (rate.part * billion)

-- n requests, from the i-th on.
unfoldable pub fixed_from : Fraction → ℕ → ℕ → List ℕ
fixed_from rate i zero = []
fixed_from rate i (suc n) = fixed_offset rate i ∷ fixed_from rate (suc i) n

-- The draws so far come with each step.
unfoldable pub poisson_from : Fraction → (ℕ → ℕ) → ℕ → ℕ → ℕ → List ℕ
poisson_from rate draw drawn i zero = []
poisson_from rate draw drawn i (suc n) =
    let more = drawn + draw i in poisson_offset rate more ∷ poisson_from rate draw more (suc i) n

abbrev by_process : String → Fraction → (ℕ → ℕ) → ℕ → Option (List ℕ)
by_process arrivals rate draw n =
    if str_eq arrivals "fixed"
    then some (fixed_from rate 0 n)
    else if str_eq arrivals "poisson"
    then some (poisson_from rate draw 0 0 n)
    else none

-- `none` is an error: no rate, no requests, or a process that is not known.
unfoldable pub build_schedule : String → Fraction → ℕ → (ℕ → ℕ) → Option (List ℕ)
build_schedule arrivals rate d draw =
    if rate.part == 0 || request_count rate d == 0
    then none
    else by_process arrivals rate draw (request_count rate d)
