-- ===== src/Bench/Validity/Judgement.antt =====
-- A run is valid where nothing speaks against it.
use doorbust.Base.{
  Bool, true, false, not, ltb, ◌≡◌, refl, List, [], ◌∷◌, ◌++◌, keep, Bool-cases, inl, inr,
  if◌then◌else◌,
}
use doorbust.Bench.Outcomes
use doorbust.Bench.Outcomes.{Outcome}
use doorbust.Bench.Report.{
  RunResult, Reason, Tier, Trust, new, void, trust_p999, trust_p99, trust_none, saturated,
  connect_errors, lagging, late_sends, server_errors, unauthorized_responses, not_found_responses,
  invariants_failed, dirty_tree,
}
use doorbust.Bench.Recorder.{millisecond}
use doorbust.Bench.Validity.{Figures, apply_validity, void_if, judge_trust}

abbrev pub is_untrusted : Trust → Bool
is_untrusted trust_none = true
is_untrusted _ = false

abbrev pub is_p99 : Trust → Bool
is_p99 trust_p99 = true
is_p99 _ = false

-- What speaks against a run.
abbrev pub applies : Figures → Reason → Bool
applies f saturated = ltb 0 f.schedule.generator_saturated
applies f connect_errors = ltb 0 (f.outcomes Outcomes.connect_error)
applies f lagging = ltb millisecond f.schedule.lag_p99
applies f late_sends = is_untrusted f.schedule.trusted_percentile
applies f server_errors = ltb 0 (f.outcomes Outcomes.server_error)
applies f unauthorized_responses = ltb 0 (f.outcomes Outcomes.unauthorized)
applies f not_found_responses = ltb 0 (f.outcomes Outcomes.not_found)
applies f invariants_failed = not f.invariants.passed
applies f dirty_tree = f.git_dirty

abbrev pub reasons : List Reason
reasons =
    saturated ∷ connect_errors ∷ lagging ∷ late_sends ∷ server_errors ∷ unauthorized_responses
    ∷ not_found_responses ∷ invariants_failed ∷ dirty_tree ∷ []

abbrev pub is_empty : List Reason → Bool
is_empty [] = true
is_empty (x ∷ xs) = false

-- The result lists what applies, of the reasons gone through, and is valid where that is nothing.
pub record IsJudged (p : Reason → Bool) (seen : List Reason) (note : Bool) (r : RunResult)
    : Type 0 where
  pub listed : r.invalid_reasons ≡ keep p seen
  pub valid : r.valid ≡ is_empty (keep p seen)
  pub noted : r.noted ≡ note

keep-snoc :
    (p : Reason → Bool) (xs : List Reason) (x : Reason)
    → keep p (xs ++ x ∷ []) ≡ keep p xs ++ (if p x then x ∷ [] else [])
keep-snoc p [] x = refl
keep-snoc p (y ∷ ys) x = elim (Bool-cases (p y)) [
  | inl e ↦ rw (e, keep-snoc p ys x) refl
  | inr e ↦ rw (e, keep-snoc p ys x) refl
]

append_nil : (xs : List Reason) → xs ++ [] ≡ xs
append_nil [] = refl
append_nil (x ∷ xs) = rw (append_nil xs) refl

snoc_long : (xs : List Reason) (x : Reason) → is_empty (xs ++ x ∷ []) ≡ false
snoc_long [] x = refl
snoc_long (y ∷ ys) x = refl

void-IsJudged :
    (p : Reason → Bool) (seen : List Reason) (n : Bool) (r : RunResult) (x : Reason)
    → p x ≡ true
    → IsJudged p seen n r
    → IsJudged p (seen ++ x ∷ []) n (void x r)
unfolding void
void-IsJudged p seen n r x e j = record {
  listed = rw (keep-snoc p seen x, e, j.listed) refl;
  valid = rw (keep-snoc p seen x, e, snoc_long (keep p seen) x) refl;
  noted = j.noted;
}

pass-IsJudged :
    (p : Reason → Bool) (seen : List Reason) (n : Bool) (r : RunResult) (x : Reason)
    → p x ≡ false
    → IsJudged p seen n r
    → IsJudged p (seen ++ x ∷ []) n r
pass-IsJudged p seen n r x e j = record {
  listed = rw (keep-snoc p seen x, e, append_nil (keep p seen)) j.listed;
  valid = rw (keep-snoc p seen x, e, append_nil (keep p seen)) j.valid;
  noted = j.noted;
}

void_if-IsJudged :
    (p : Reason → Bool) (seen : List Reason) (n : Bool) (r : RunResult) (x : Reason)
    → IsJudged p seen n r
    → IsJudged p (seen ++ x ∷ []) n (void_if (p x) x r)
void_if-IsJudged p seen n r x j = elim (Bool-cases (p x)) [
  | inl e ↦ rw e (void-IsJudged p seen n r x e j)
  | inr e ↦ rw e (pass-IsJudged p seen n r x e j)
]

judge_trust-IsJudged :
    (p : Reason → Bool) (seen : List Reason) (t : Trust) (r : RunResult)
    → p late_sends ≡ is_untrusted t
    → IsJudged p seen false r
    → IsJudged p (seen ++ late_sends ∷ []) (is_p99 t) (judge_trust t r)
judge_trust-IsJudged p seen trust_none r e j = void-IsJudged p seen false r late_sends e j
judge_trust-IsJudged p seen trust_p99 r e j =
    pass-IsJudged p seen true (record r { noted = true }) late_sends e
      (record { listed = j.listed; valid = j.valid; noted = refl })
judge_trust-IsJudged p seen trust_p999 r e j = pass-IsJudged p seen false r late_sends e j

-- The judgement of a run lists exactly the reasons that apply, in their order; the run is valid where
-- there is none; and the note on p99.9 stands where the lateness allows for p99 only.
pub apply_validity-IsJudged :
    (f : Figures) (tier : Tier)
    → IsJudged
        (applies f)
        reasons
        (is_p99 f.schedule.trusted_percentile)
        (apply_validity f (new tier))
unfolding apply_validity
apply_validity-IsJudged f tier =
    let p = applies f in
    let t = f.schedule.trusted_percentile in
    let r0 = new tier in
    let j0 : IsJudged p [] false r0 = record { listed = refl; valid = refl; noted = refl } in
    let j1 = void_if-IsJudged p _ false _ saturated j0 in
    let j2 = void_if-IsJudged p _ false _ connect_errors j1 in
    let j3 = void_if-IsJudged p _ false _ lagging j2 in
    let j4 = judge_trust-IsJudged p _ t _ refl j3 in
    let j5 = void_if-IsJudged p _ (is_p99 t) _ server_errors j4 in
    let j6 = void_if-IsJudged p _ (is_p99 t) _ unauthorized_responses j5 in
    let j7 = void_if-IsJudged p _ (is_p99 t) _ not_found_responses j6 in
    let j8 = void_if-IsJudged p _ (is_p99 t) _ invariants_failed j7 in
    void_if-IsJudged p _ (is_p99 t) _ dirty_tree j8
