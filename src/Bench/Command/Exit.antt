-- ===== src/Bench/Command/Exit.antt =====
-- What the exit code of a sweep says.
use doorbust.Base.{ℕ, ◌*◌, ◌≤◌, ◌≡◌, Bool, true, Option, some}
use doorbust.Orders.Strategies.{strategy_baseline, strategy_reserve_last, strategy_cte}
use doorbust.Bench.Report.{Fraction}
use doorbust.Bench.Recorder.{millisecond}
use doorbust.Bench.Execution.{Options, Surroundings, Measurement}
use doorbust.Bench.Command.{result_of, double}

-- A valid run whose result has been written.
abbrev pub IsGood : Option Measurement → Bool → Type 0
IsGood r emitted = (m : Measurement) × (r ≡ some m) × (m.judged.valid ≡ true) × (emitted ≡ true)

-- The generator has kept to its schedule at twice the rate, and no more than 1.8 times the rate has
-- been answered.
pub record IsSaturated (rate : Fraction) (r : Option Measurement) (emitted : Bool) : Type 0 where
  pub measured : Measurement
  pub found : r ≡ some measured
  pub sent : measured.schedule.generator_saturated ≡ 0
  pub on_time : measured.schedule.lag_p99 ≤ millisecond
  pub levelled :
      5 * rate.whole * measured.throughput.accepted_per_sec.part
      ≤ 9 * rate.part * measured.throughput.accepted_per_sec.whole
  pub written : emitted ≡ true

-- The arms' runs are valid and written, and the run at twice the rate shows the server's limit.
pub record IsClean (o : Options) (out : ℕ → Surroundings) (emitted : ℕ → Bool) : Type 0 where
  pub baseline : IsGood (result_of (record o { arm = strategy_baseline }) (out 0)) (emitted 0)
  pub reserve_last :
      IsGood (result_of (record o { arm = strategy_reserve_last }) (out 1)) (emitted 1)
  pub cte : IsGood (result_of (record o { arm = strategy_cte }) (out 2)) (emitted 2)
  pub saturated : IsSaturated o.rate (result_of (double o) (out 3)) (emitted 3)
