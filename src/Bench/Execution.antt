-- ===== src/Bench/Execution.antt =====
-- bench/internal/run/run.go, Execute: one run from end to end, as the calls that it makes on its
-- surroundings, in their order.
pub mod Automaton
pub mod Following
pub mod Protocol
pub mod Permission
use Prim.Native.Nat.{◌/◌}
use doorbust.Base.{
  ℕ, zero, suc, ◌+◌, ◌*◌, String, Bool, true, false, not, ltb, ◌&&◌, ◌||◌, str_eq, Option, none,
  some, List, [], ◌∷◌, ◌++◌, length, if◌then◌else◌,
}
use doorbust.Orders.Handler.{ℤ}
use doorbust.Bench.Report.{Fraction, Tier, Invariants, RunResult, Schedule, new}
use doorbust.Bench.Workload.{Plan, Refusal, check_target, plan_for}
use doorbust.Bench.Arrivals.{build_schedule}
use doorbust.Bench.Dispatch.{Send, Results, Throughput, run}
use doorbust.Bench.Validity.{Figures, apply_validity}

pub record Options : Type 0 where
  -- the path that url.Parse finds in the DSN
  pub dsn_path : Option String
  pub allow_unsafe_target : Bool
  pub arm : String
  pub shape : String
  pub arrivals : String
  pub rate : Fraction
  pub duration : ℕ
  pub warmup : ℕ
  pub max_in_flight : ℕ
  pub git_sha : String
  pub tier : Tier
  pub allow_dirty : Bool

-- A call on the surroundings that can fail.
pub data Step : Type 0 where
  connect migrate truncate make_probe_table seed_products start_issuer mint_buyers seed_customers :
      Step
  start_app await_ready find_customer probe_exec : Step

-- What a run has done: a step, and whether it worked; the load; the look at the database afterwards;
-- and what is closed again.
pub data Mark : Type 0 where
  tried : Step → Bool → Mark
  loaded checked stopped_app closed_issuer closed_pool : Mark

-- The surroundings: the checkout, the limits of the machine (`none` where they cannot be read), which
-- steps work, the random draws, how the requests go, and what the checks find.
pub record Surroundings : Type 0 where
  pub sha : String
  pub dirty : Bool
  pub file_limit : Option ℕ
  pub available_bytes : Option ℕ
  pub works : Step → Bool
  pub draw : ℕ → ℕ
  pub send : ℕ → Send
  pub invariants : ℤ → ℕ → ℕ → Invariants

-- The result of a run: its judgement, with the figures that the sweep looks at.
pub record Measurement : Type 0 where
  pub judged : RunResult
  pub schedule : Schedule
  pub throughput : Throughput

-- A part of the run: whether the app has been stopped goes in and comes out; `none` is an error.
abbrev pub Run : Type 0 → Type 0
Run A = Surroundings → Bool → (Option A × Bool) × List Mark

module _ {A : Type 0} where
  unfoldable pub pure : A → Run A
  pure a out stopped = ((some a, stopped), [])

  -- return nil, err
  abbrev pub or_fail : Option A → Run A
  or_fail o out stopped = ((o, stopped), [])

  -- defer
  unfoldable pub deferring : Run (Unit {0}) → Run A → Run A
  deferring last body out stopped =
      let ((r, stopped), marks) = body out stopped in
      let ((ignored, stopped), more) = last out stopped in ((r, stopped), marks ++ more)

module _ {A B : Type 0} where
  abbrev pub continue : Option A → (A → Run B) → Run B
  continue none f out stopped = ((none, stopped), [])
  continue (some a) f out stopped = f a out stopped

  infixl 5 ◌>>=◌ ◌>>◌
  unfoldable pub ◌>>=◌ : Run A → (A → Run B) → Run B
  unfolding pure
  ◌>>=◌ m f out stopped =
      let ((r, stopped), marks) = m out stopped in
      let (s, more) = continue r f out stopped in (s, marks ++ more)

  abbrev pub ◌>>◌ : Run A → Run B → Run B
  m >> k = m >>= λ _. k

abbrev tt_if : Bool → Option (Unit {0})
tt_if b = if b then some tt else none

abbrev pub require : Bool → Run (Unit {0})
require b = or_fail (tt_if b)

unfoldable pub step : Step → Run (Unit {0})
step s out stopped = ((tt_if (out.works s), stopped), tried s (out.works s) ∷ [])

unfoldable pub note : Mark → Run (Unit {0})
note m out stopped = ((some tt, stopped), m ∷ [])

-- app.stop, which may be called twice.
unfoldable pub stop : Run (Unit {0})
stop out stopped = if stopped then ((some tt, true), []) else ((some tt, true), stopped_app ∷ [])

-- The SHA that is given stands for a clean checkout.
abbrev pub git_sha : Options → Surroundings → String
git_sha o out = if str_eq o.git_sha "" then out.sha else o.git_sha

abbrev pub git_dirty : Options → Surroundings → Bool
git_dirty o out = if str_eq o.git_sha "" then out.dirty else false

abbrev pub enough_files : ℕ → Option ℕ → Bool
enough_files max_in_flight none = true
enough_files max_in_flight (some hard) = not (ltb hard (max_in_flight * 2))

-- memory.go: CheckMemoryBudget, with 64 KiB for each request and half of what is available.
abbrev pub bytes_per_in_flight : ℕ
bytes_per_in_flight = 65536

abbrev pub check_memory_budget : ℕ → Option ℕ → Bool
check_memory_budget max_in_flight none = true
check_memory_budget max_in_flight (some available) =
    not (ltb (available / 2) (max_in_flight * bytes_per_in_flight))

abbrev pub is_none : Option Refusal → Bool
is_none none = true
is_none (some r) = false

abbrev pub target_allowed : Options → Bool
target_allowed o = is_none (check_target o.dsn_path o.allow_unsafe_target)

-- The requests with what happens to each.
abbrev pub sends_from : (ℕ → Send) → ℕ → List ℕ → List (ℕ × Send)
sends_from send i [] = []
sends_from send i (due ∷ rest) = (due, send i) ∷ sends_from send (suc i) rest

abbrev pub figures : Options → Surroundings → Plan → Results → Figures
figures o out plan r = record {
  schedule = r.schedule;
  outcomes = r.outcomes;
  invariants = out.invariants plan.quantity r.reserved_total r.unknown_total;
  git_dirty = git_dirty o out;
}

-- loadgen.Run
abbrev pub load : Options → List ℕ → Run Results
load o schedule out stopped =
    ((run o.max_in_flight o.warmup (sends_from out.send 0 schedule), stopped), loaded ∷ [])

abbrev pub judge : Options → Plan → Results → Run Measurement
judge o plan r out stopped = (
  (
    some (record {
      judged = apply_validity (figures o out plan r) (new o.tier);
      schedule = r.schedule;
      throughput = r.throughput;
    }),
    stopped,
  ),
  [],
)

-- With the app running.
unfoldable pub measure : Options → List ℕ → Plan → Run Measurement
measure o schedule plan = do
  step await_ready
  step find_customer
  step probe_exec
  results ← load o schedule
  stop
  note checked
  judge o plan results

unfoldable pub with_issuer : Options → List ℕ → Plan → Run Measurement
with_issuer o schedule plan = do
  step mint_buyers
  step seed_customers
  step start_app
  deferring stop (measure o schedule plan)

-- The draws are those of a generator that is seeded by the options.
unfoldable pub with_pool : Options → (ℕ → ℕ) → Run Measurement
with_pool o draw = do
  step migrate
  step truncate
  step make_probe_table
  schedule ← or_fail (build_schedule o.arrivals o.rate o.duration draw)
  plan ← or_fail (plan_for o.shape (length schedule))
  step seed_products
  step start_issuer
  deferring (note closed_issuer) (with_issuer o schedule plan)

-- Before anything is touched: the commit is known and clean, the machine can hold the run, and the
-- database may be emptied.
unfoldable pub start : Options → Surroundings → Run Measurement
start o out = do
  require (not (str_eq (git_sha o out) "") || o.allow_dirty)
  require (not (git_dirty o out) || o.allow_dirty)
  require (enough_files o.max_in_flight out.file_limit)
  require (target_allowed o)
  require (check_memory_budget o.max_in_flight out.available_bytes)
  step connect
  deferring (note closed_pool) (with_pool o out.draw)

unfoldable pub execute : Options → Run Measurement
execute o out = start o out out
