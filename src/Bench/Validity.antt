-- ===== src/Bench/Validity.antt =====
-- bench/internal/run/run.go, applyValidity: the run is judged. A reason stands for its message.
pub mod Judgement
use doorbust.Base.{ℕ, Bool, true, false, not, ltb, if◌then◌else◌}
use doorbust.Bench.Outcomes
use doorbust.Bench.Outcomes.{Outcome}
use doorbust.Bench.Report.{
  Schedule, Invariants, RunResult, Reason, Trust, trust_p999, trust_p99, trust_none, void,
  saturated, connect_errors, lagging, late_sends, server_errors, unauthorized_responses,
  not_found_responses, invariants_failed, dirty_tree,
}
use doorbust.Bench.Recorder.{millisecond}

-- What a run has come to, as far as it is judged.
pub record Figures : Type 0 where
  pub schedule : Schedule
  pub outcomes : Outcome → ℕ
  pub invariants : Invariants
  pub git_dirty : Bool

abbrev pub void_if : Bool → Reason → RunResult → RunResult
void_if b reason r = if b then void reason r else r

abbrev pub judge_trust : Trust → RunResult → RunResult
judge_trust trust_none r = void late_sends r
judge_trust trust_p99 r = record r { noted = true }
judge_trust trust_p999 r = r

unfoldable pub apply_validity : Figures → RunResult → RunResult
apply_validity f r =
    let r = void_if (ltb 0 f.schedule.generator_saturated) saturated r in
    let r = void_if (ltb 0 (f.outcomes Outcomes.connect_error)) connect_errors r in
    let r = void_if (ltb millisecond f.schedule.lag_p99) lagging r in
    let r = judge_trust f.schedule.trusted_percentile r in
    let r = void_if (ltb 0 (f.outcomes Outcomes.server_error)) server_errors r in
    let r = void_if (ltb 0 (f.outcomes Outcomes.unauthorized)) unauthorized_responses r in
    let r = void_if (ltb 0 (f.outcomes Outcomes.not_found)) not_found_responses r in
    let r = void_if (not f.invariants.passed) invariants_failed r in
    void_if f.git_dirty dirty_tree r
