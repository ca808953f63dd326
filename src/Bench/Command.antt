-- ===== src/Bench/Command.antt =====
-- bench/main.go: the two subcommands, from the parsed flags to the exit code. Which writes of a result
-- succeed is a function.
pub mod Exit
use doorbust.Base.{
  ℕ, zero, suc, ◌*◌, String, Bool, true, false, not, ltb, ◌==◌, ◌||◌, Option, none, some, List, [],
  ◌∷◌, if◌then◌else◌,
}
use Prim.Native.Nat.{◌/◌}
use doorbust.Orders.Strategies.{strategy_names, strategy_cte}
use doorbust.Bench.Report.{Fraction}
use doorbust.Bench.Recorder.{millisecond}
use doorbust.Bench.Execution.{Options, Surroundings, Measurement, execute}

abbrev at_least : ℕ → ℕ → ℕ
at_least low n = if ltb n low then low else n

-- One second of arrivals may be outstanding, and 64 at least. A flag that is not positive is 0.
unfoldable pub finish : Options → Options
finish o =
    if o.max_in_flight == 0
    then record o { max_in_flight = at_least 64 (o.rate.part / o.rate.whole) }
    else o

abbrev pub result_of : Options → Surroundings → Option Measurement
result_of o out = (execute o out false).0.0

abbrev exit_of_run : Option Measurement → Bool → ℕ
exit_of_run none emitted = 1
exit_of_run (some m) false = 1
exit_of_run (some m) true = if m.judged.valid then 0 else 1

unfoldable pub cmd_run : Options → Surroundings → Bool → ℕ
cmd_run o out emitted = exit_of_run (result_of (finish o) out) emitted

pub data Verdict : Type 0 where
  server_saturated generator_limited not_yet_saturated : Verdict

abbrev pub is_limited : Measurement → Bool
is_limited m = ltb 0 m.schedule.generator_saturated || ltb millisecond m.schedule.lag_p99

-- Above 1.8 times the rate.
abbrev pub is_above : Fraction → Fraction → Bool
is_above accepted rate = ltb (9 * rate.part * accepted.whole) (5 * rate.whole * accepted.part)

unfoldable pub verdict_of : Fraction → Measurement → Verdict
verdict_of rate m =
    if is_limited m
    then generator_limited
    else if is_above m.throughput.accepted_per_sec rate
    then not_yet_saturated
    else server_saturated

pub data Written : Type 0 where
  arm_result : String → Measurement → Written
  saturation_result : Verdict → Measurement → Written

-- Whether something has failed so far, and what has been written; `none` is an early return of 1.
abbrev pub Swept : Type 0
Swept = Option Bool × List Written

abbrev pub then_write : Written → Swept → Swept
then_write w (failed, ws) = (failed, w ∷ ws)

abbrev pub swept_arm : String → Option Measurement → Bool → Bool → (Bool → Swept) → Swept
swept_arm arm none emitted failed next = (none, [])
swept_arm arm (some m) false failed next = (none, [])
swept_arm arm (some m) true failed next =
    then_write (arm_result arm m) (next (failed || not m.judged.valid))

-- The i-th run meets the i-th surroundings, and its result is written or not.
module _ (o : Options) (out : ℕ → Surroundings) (emitted : ℕ → Bool) where
  unfoldable pub sweep_arms : List String → ℕ → Bool → (ℕ → Bool → Swept) → Swept
  sweep_arms [] i failed last = last i failed
  sweep_arms (arm ∷ arms) i failed last =
      swept_arm arm (result_of (record o { arm = arm }) (out i)) (emitted i) failed
        (λ failed. sweep_arms arms (suc i) failed last)

abbrev pub double : Options → Options
double o = record o {
  arm = strategy_cte;
  rate = record { part = 2 * o.rate.part; whole = o.rate.whole };
}

abbrev pub is_server : Verdict → Bool
is_server server_saturated = true
is_server _ = false

abbrev pub saturation : Fraction → Option Measurement → Bool → Bool → Swept
saturation rate none emitted failed = (none, [])
saturation rate (some m) false failed = (none, [])
saturation rate (some m) true failed =
    let verdict = verdict_of rate m in
    (some (failed || not (is_server verdict)), saturation_result verdict m ∷ [])

abbrev pub exit_of_sweep : Option Bool → ℕ
exit_of_sweep none = 1
exit_of_sweep (some true) = 1
exit_of_sweep (some false) = 0

unfoldable pub sweep : Options → (ℕ → Surroundings) → (ℕ → Bool) → Swept
sweep o out emitted =
    sweep_arms o out emitted strategy_names 0 false
      (λ i failed. saturation o.rate (result_of (double o) (out i)) (emitted i) failed)

-- The exit code, and the results that have been written. The directory may not be there to write to.
unfoldable pub cmd_sweep : Options → Bool → (ℕ → Surroundings) → (ℕ → Bool) → ℕ × List Written
cmd_sweep o false out emitted = (1, [])
cmd_sweep o true out emitted =
    let (failed, ws) = sweep (finish o) out emitted in (exit_of_sweep failed, ws)
