-- ===== src/RateLimit/Isolation.antt =====
-- A request is charged to the bucket of its own key.
use text.Mathlib.TextPositions.{eq_refl}
use doorbust.Base.{
  ℕ, ◌-◌, ◌<◌, String, Bool, true, false, ltb, str_eq, ◌≡◌, refl, ◌⊎◌, inl, inr, Option, none, some,
  Bool-cases, Option-cases, arith,
}
use doorbust.RateLimit.{TokenBucket, Bucket, Limiter, enabled, unless_idle, evict_locked, allow}

module _ {ℓ} {T : Type ℓ} (rate : TokenBucket T) where
  -- The bucket that a key is charged to: its own, or a full one.
  abbrev pub bucket_or_fresh : Limiter T → Option (Bucket T) → T
  bucket_or_fresh l none = rate.fresh l.rps l.burst
  bucket_or_fresh l (some b) = b.limiter

  -- The request is charged to the bucket of its key; the bucket of another key is as it was, or has
  -- been idle for too long and is gone.
  pub record Charged (key : String) (now : ℕ) (before : Limiter T) (r : Bool × Limiter T)
      : Type ℓ where
    pub answer : r.0 ≡ (rate.allow_n (bucket_or_fresh before (before.buckets key)) now).0
    pub own :
        r.1.buckets key
        ≡ some (record {
          limiter = (rate.allow_n (bucket_or_fresh before (before.buckets key)) now).1;
          seen = now;
        })
    pub others :
        (k : String)
        → str_eq k key ≡ false
        → (r.1.buckets k ≡ before.buckets k)
          ⊎ ((b : Bucket T) × (before.buckets k ≡ some b)
              × (before.idle < now - b.seen)
              × (r.1.buckets k ≡ none))

  unless_idle-cases :
      (idle now : ℕ) (o : Option (Bucket T))
      → (unless_idle idle now o ≡ o)
        ⊎ ((b : Bucket T) × (o ≡ some b) × (idle < now - b.seen) × (unless_idle idle now o ≡ none))
  unless_idle-cases idle now none = inl refl
  unless_idle-cases idle now (some b) = elim (Bool-cases (ltb idle (now - b.seen))) [
    | inl late ↦ inr (b, refl, ground arith, rw late refl)
    | inr fresh ↦ inl (rw fresh refl)
  ]

  -- A limiter that is on charges each request to the bucket of its own key. A bucket is lost only where
  -- it has been idle for longer than the limit.
  pub allow-Charged :
      (key : String) (now : ℕ) (l : Limiter T)
      → enabled l ≡ true
      → Charged key now l (allow rate key now l)
  unfolding allow evict_locked
  allow-Charged key now l on = elim (Option-cases (l.buckets key)) [
    | inl unknown ↦ rw on (
        rw unknown (record {
          answer = rw unknown refl;
          own = rw unknown (rw (eq_refl key) refl);
          others = λ k other. rw other (unless_idle-cases l.idle now (l.buckets k));
        }))
    | inr (b, known) ↦ rw on (
        rw known (record {
          answer = rw known refl;
          own = rw known (rw (eq_refl key) refl);
          others = λ k other. inl (rw other refl);
        }))
  ]
