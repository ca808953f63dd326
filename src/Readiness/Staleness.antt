-- ===== src/Readiness/Staleness.antt =====
-- When a poller that makes no progress is reported.
use doorbust.Base.{
  ℕ, ◌-◌, ◌*◌, ◌≤◌, Bool, true, false, Option, none, some, ltb, leb, ◌&&◌, ◌≡◌, refl, ◌↔◌, ◌⊎◌,
  Bool-cases, inl, inr, arith,
}
use doorbust.Readiness.{PollerState, poller_status, poller_grace, ready_handler, code_of}

-- Since when the poller has not succeeded: its last success, or its start.
abbrev since : Option ℕ → ℕ → ℕ
since none started_at = started_at
since (some last) started_at = last

abbrev pub silent_since : PollerState → ℕ
silent_since p = since p.last_success p.started_at

poller_status-ready :
    (last : Option ℕ) (started_at now grace : ℕ)
    → (poller_status last started_at now grace).1 ≡ leb (now - since last started_at) grace
unfolding poller_status
poller_status-ready none started_at now grace = elim (Bool-cases (leb (now - started_at) grace)) [
  | inl e ↦ rw e refl
  | inr e ↦ rw e refl
]
poller_status-ready (some last) started_at now grace = elim (Bool-cases (ltb grace (now - last))) [
  | inl e ↦ rw e (ground arith)
  | inr e ↦ rw e (ground arith)
]

within-grace :
    (silence interval : ℕ)
    → leb silence (poller_grace interval) ≡ true
    → (silence ≤ 5 * interval) ⊎ (silence ≤ 30000)
unfolding poller_grace
within-grace silence interval h = elim (Bool-cases (ltb 30000 (5 * interval))) [
  | inl e ↦ inl (let h' : leb silence (5 * interval) ≡ true = rw e at h in ground arith)
  | inr e ↦ inr (let h' : leb silence 30000 ≡ true = rw e at h in ground arith)
]

grace-within :
    (silence interval : ℕ)
    → (silence ≤ 5 * interval) ⊎ (silence ≤ 30000)
    → leb silence (poller_grace interval) ≡ true
unfolding poller_grace
grace-within silence interval h = elim (Bool-cases (ltb 30000 (5 * interval))) [
  | inl e ↦ rw e (elim h [ inl a ↦ ground arith | inr a ↦ ground arith ])
  | inr e ↦ rw e (elim h [ inl a ↦ ground arith | inr a ↦ ground arith ])
]

both_true : (a b : Bool) → code_of (a && b) ≡ 200 → (a ≡ true) × (b ≡ true)
both_true true true h = (refl, refl)
both_true true false h = absurd (omega (arith, h))
both_true false b h = absurd (omega (arith, h))

-- With a poller, the probe is answered by 200 if and only if the database answers and the poller has
-- succeeded, or else has been started, within the last five intervals or the last thirty seconds.
pub ready_handler-code :
    (ping : Bool) (p : PollerState) (now : ℕ)
    → ((ready_handler ping (some p) now).code ≡ 200)
      ↔ ((ping ≡ true) × ((now - silent_since p ≤ 5 * p.interval) ⊎ (now - silent_since p ≤ 30000)))
unfolding ready_handler
ready_handler-code ping p now =
    let ready = poller_status-ready p.last_success p.started_at now (poller_grace p.interval) in
    (
      (λ h.
          let (answers, fresh) = both_true ping _ h in
          (answers, within-grace _ p.interval (rw ready at fresh))),
      (λ (answers, fresh). rw answers (rw ready (rw (grace-within _ p.interval fresh) refl))),
    )
