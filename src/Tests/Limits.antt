-- ===== src/Tests/Limits.antt =====
-- Two callers behind a limiter of two requests each.
use doorbust.Base.{ℕ, zero, suc, Bool, true, false, ◌≡◌, refl, none, some}
use doorbust.RateLimit.{TokenBucket, Limiter, enabled, allow, evict_locked, middleware, by_subject}
use doorbust.RateLimit.Isolation.{Charged, allow-Charged}
use doorbust.Tests.Shop.{ann}

abbrev take_one : ℕ → ℕ → Bool × ℕ
take_one zero now = (false, zero)
take_one (suc n) now = (true, n)

-- A bucket that is never filled up.
abbrev pub tokens : TokenBucket ℕ
tokens = record { fresh = λ rps burst. burst; allow_n = take_one }

abbrev pub limiter : Limiter ℕ
limiter = record { rps = 1; burst = 2; idle = 60; buckets = λ key. none }

abbrev once : Limiter ℕ
once = (allow tokens "ann" 100 limiter).1

abbrev twice : Limiter ℕ
twice = (allow tokens "ann" 110 once).1

third_refused :
    (middleware tokens
      (by_subject (some ann))
      120
      (middleware tokens "sub-ann" 110 (middleware tokens "sub-ann" 100 limiter).1).1).0
    ≡ false
unfolding middleware by_subject allow evict_locked
third_refused = refl

anonymous : middleware tokens (by_subject none) 120 twice ≡ (true, twice)
unfolding middleware by_subject allow evict_locked
anonymous = refl

-- After the idle period the key has a full bucket again, once another key has come.
evicted : (allow tokens "bob" 171 twice).1.buckets "ann" ≡ none
unfolding allow evict_locked
evicted = refl

on : enabled twice ≡ true
unfolding allow evict_locked
on = refl

allow-Charged_example : Charged tokens "bob" 171 twice (allow tokens "bob" 171 twice)
allow-Charged_example = allow-Charged tokens "bob" 171 twice on
