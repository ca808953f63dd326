-- ===== src/Bench/Report.antt =====
-- bench/internal/report/result.go: the figures of a run. Durations are in nanoseconds; the report's
-- microseconds are a thousandth of them. Fractions are exact.
use doorbust.Base.{ℕ, ◌*◌, Bool, true, false, ltb, List, [], ◌∷◌, ◌++◌, if◌then◌else◌}

-- `late of all`; 0 of 0 is 0.
pub record Fraction : Type 0 where
  pub part : ℕ
  pub whole : ℕ

-- Is the fraction above one in n?
abbrev pub exceeds_one_in : ℕ → Fraction → Bool
exceeds_one_in n f = ltb f.whole (n * f.part)

pub data Trust : Type 0 where
  trust_p999 trust_p99 trust_none : Trust

unfoldable pub trusted_percentile_for : Fraction → Trust
trusted_percentile_for late =
    if exceeds_one_in 100 late
    then trust_none
    else if exceeds_one_in 1000 late
    then trust_p99
    else trust_p999

pub record Percentiles : Type 0 where
  pub p50 : ℕ
  pub p95 : ℕ
  pub p99 : ℕ
  pub p999 : ℕ
  pub max : ℕ
  pub count : ℕ

pub record Latencies : Type 0 where
  pub overall : Percentiles
  pub reserved : Percentiles
  pub out_of_stock : Percentiles
  pub service_overall : Percentiles

pub record Schedule : Type 0 where
  pub requests : ℕ
  pub lag_p50 : ℕ
  pub lag_p99 : ℕ
  pub lag_max : ℕ
  pub late_requests : ℕ
  pub late_fraction : Fraction
  pub trusted_percentile : Trust
  pub generator_saturated : ℕ

-- The names of the checks of bench/internal/verify.
pub data CheckName : Type 0 where
  client_server_order_count : CheckName
  stock_readable : ℕ → CheckName
  num_reserved_non_negative num_reserved_within_quantity : CheckName
  reserved_matches_live_orders orders_within_initial_quantity : CheckName

pub record InvariantCheck : Type 0 where
  pub name : CheckName
  pub holds : Bool

pub record Invariants : Type 0 where
  pub passed : Bool
  pub checks : List InvariantCheck

-- Loopback or deployed.
pub data Tier : Type 0 where
  tier_loopback tier_deployed : Tier

-- Why a run's numbers must not be used.
pub data Reason : Type 0 where
  saturated connect_errors lagging late_sends server_errors : Reason
  unauthorized_responses not_found_responses invariants_failed dirty_tree : Reason

pub record RunResult : Type 0 where
  pub tier : Tier
  pub valid : Bool
  pub invalid_reasons : List Reason
  pub absolute_throughput_valid : Bool
  -- p99.9 is not trustworthy
  pub noted : Bool

abbrev is_deployed : Tier → Bool
is_deployed tier_loopback = false
is_deployed tier_deployed = true

-- New
abbrev pub new : Tier → RunResult
new tier = record {
  tier = tier;
  valid = true;
  invalid_reasons = [];
  absolute_throughput_valid = is_deployed tier;
  noted = false;
}

-- Void
unfoldable pub void : Reason → RunResult → RunResult
void reason r = record r { valid = false; invalid_reasons = r.invalid_reasons ++ reason ∷ [] }
