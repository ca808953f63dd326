-- ===== src/RateLimit.antt =====
-- internal/ratelimit/ratelimit.go: a token bucket for each key, and what becomes of the idle ones.
pub mod Isolation
use doorbust.Auth.{Claims}
use doorbust.Base.{
  ℕ, ◌-◌, String, Bool, true, false, not, ◌&&◌, ltb, str_eq, Option, none, some, if◌then◌else◌,
}

-- A token bucket of golang.org/x/time/rate: a full one of a rate and a burst, and a request at a time.
pub record TokenBucket {ℓ} (T : Type ℓ) : Type ℓ where
  pub fresh : ℕ → ℕ → T
  pub allow_n : T → ℕ → Bool × T

module _ {ℓ} where
  pub record Bucket (T : Type ℓ) : Type ℓ where
    pub limiter : T
    pub seen : ℕ

  -- The map is a function. The rate is a whole number, as the settings of cmd/main.go make it, and one that
  -- is not positive is 0.
  pub record Limiter (T : Type ℓ) : Type ℓ where
    pub rps : ℕ
    pub burst : ℕ
    pub idle : ℕ
    pub buckets : String → Option (Bucket T)

module _ {ℓ} {T : Type ℓ} where
  abbrev pub enabled : Limiter T → Bool
  enabled l = ltb 0 l.rps && ltb 0 l.burst

  abbrev pub unless_idle : ℕ → ℕ → Option (Bucket T) → Option (Bucket T)
  unless_idle idle now none = none
  unless_idle idle now (some b) = if ltb idle (now - b.seen) then none else some b

  unfoldable pub evict_locked : ℕ → Limiter T → Limiter T
  evict_locked now l = record l { buckets = λ key. unless_idle l.idle now (l.buckets key) }

  abbrev pub put : String → Bucket T → Limiter T → Limiter T
  put key b l = record l { buckets = λ k. if str_eq k key then some b else l.buckets k }

  abbrev charged : String → ℕ → Limiter T → Bool × T → Bool × Limiter T
  charged key now l (allowed, t) = (allowed, put key (record { limiter = t; seen = now }) l)

  abbrev charge_found :
      TokenBucket T → String → ℕ → Limiter T → Option (Bucket T) → Bool × Limiter T
  charge_found rate key now l none =
      charged key now (evict_locked now l) (rate.allow_n (rate.fresh l.rps l.burst) now)
  charge_found rate key now l (some b) = charged key now l (rate.allow_n b.limiter now)

  unfoldable pub allow : TokenBucket T → String → ℕ → Limiter T → Bool × Limiter T
  allow rate key now l =
      if enabled l then charge_found rate key now l (l.buckets key) else (true, l)

  abbrev answered : String → TokenBucket T → ℕ → Limiter T → Bool × Limiter T
  answered key rate now l = if str_eq key "" then (true, l) else allow rate key now l

  -- Whether the request reaches the handler, or is answered by 429.
  unfoldable pub middleware : TokenBucket T → String → ℕ → Limiter T → Bool × Limiter T
  middleware rate key now l = if enabled l then answered key rate now l else (true, l)

-- No claims, or the subject "", is the key "".
unfoldable pub by_subject : Option Claims → String
by_subject none = ""
by_subject (some claims) = claims.subject

abbrev or_address : String → Option String → String
or_address remote_addr none = remote_addr
or_address remote_addr (some host) = host

-- The host of the address, `none` where net.SplitHostPort finds no port; then it is the whole address.
unfoldable pub by_ip : (String → Option String) → String → String
by_ip split_host_port remote_addr = or_address remote_addr (split_host_port remote_addr)
