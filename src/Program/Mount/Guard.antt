-- ===== src/Program/Mount/Guard.antt =====
-- What stands between a request and the handlers that need a caller.
use mathlib.Core.List.{Memᴰ}
use doorbust.Base.{ℕ, ◌≡◌, refl, ◌⊎◌, String, Option, some, Bool-cases, inl, inr}
use doorbust.Session.{M, pure}
use doorbust.Auth.{Claims}
use doorbust.Auth.Middleware.{HttpRequest, served}
use doorbust.Auth.Middleware.Admission.{IsCaller, middleware-cases, require_group-member}
use doorbust.RateLimit.{TokenBucket, middleware as limit, by_subject, by_ip}
use doorbust.Orders.Handler.{Code, forbidden_code, unauthorized_code, rate_limited_code}
use doorbust.Orders.Handler.Routes.{Reply, rejected}
use doorbust.Orders.Strategies.{Strategy}
use doorbust.Program.{Config}
use doorbust.Program.Mount.{
  Protected, me, new_product, my_orders, one_order, place, pay, cancel, Incoming, to_callers, Body,
  Limits, handler, endpoint, per_caller, routed, mount, http,
}

abbrev answer_only : ℕ → Code → M (Reply Body)
answer_only status code = pure (rejected status code)

-- Who may ask for what: a new sale is the vendors' to make.
abbrev pub IsAllowed : String → Protected → Claims → Type 0
IsAllowed group (new_product body) claims = Memᴰ group claims.groups
IsAllowed group _ claims = Unit {0}

-- What a route of the group does for a request: its handler runs for the caller of a valid token who may
-- ask for it, or an answer goes out that has touched nothing.
pub data IsGuarded (config : Config) (reserve : Strategy) (verify : String → Option Claims)
    (c : Protected) (r : HttpRequest) (m : M (Reply Body)) : Type 0 where
  admitted :
      (claims : Claims)
      → IsCaller verify r claims
      → IsAllowed config.vendor_group c claims
      → m ≡ handler config reserve c (some claims)
      → IsGuarded config reserve verify c r m
  outsider :
      (claims : Claims)
      → IsCaller verify r claims
      → (IsAllowed config.vendor_group c claims → ⊥)
      → m ≡ answer_only 403 forbidden_code
      → IsGuarded config reserve verify c r m
  nobody :
      ((claims : Claims) → IsCaller verify r claims → ⊥)
      → m ≡ answer_only 401 unauthorized_code
      → IsGuarded config reserve verify c r m
  throttled : m ≡ answer_only 429 rate_limited_code → IsGuarded config reserve verify c r m

module _ (config : Config) (reserve : Strategy) where
  endpoint-group :
      (c : Protected) (r : HttpRequest) (claims : Claims)
      → (IsAllowed config.vendor_group c claims
          × (endpoint config reserve c (record r { claims = some claims })
              ≡ handler config reserve c (some claims)))
        ⊎ ((IsAllowed config.vendor_group c claims → ⊥)
            × (endpoint config reserve c (record r { claims = some claims })
                ≡ answer_only 403 forbidden_code))
  unfolding endpoint
  endpoint-group (new_product body) r claims =
      elim (require_group-member config.vendor_group
        (λ r. served (handler config reserve (new_product body) r.claims)) r claims) [
          | inl (m, e) ↦ inl (m, rw e refl)
          | inr (m, e) ↦ inr (m, rw e refl)
        ]
  endpoint-group me r claims = inl (tt, refl)
  endpoint-group (my_orders limit offset) r claims = inl (tt, refl)
  endpoint-group (one_order id) r claims = inl (tt, refl)
  endpoint-group (place key body) r claims = inl (tt, refl)
  endpoint-group (pay id) r claims = inl (tt, refl)
  endpoint-group (cancel id) r claims = inl (tt, refl)

  endpoint-IsGuarded :
      (verify : String → Option Claims) (c : Protected) (r : HttpRequest) (claims : Claims)
      → IsCaller verify r claims
      → IsGuarded config reserve verify c r
          (endpoint config reserve c (record r { claims = some claims }))
  endpoint-IsGuarded verify c r claims caller = elim (endpoint-group c r claims) [
    | inl (may, e) ↦ admitted claims caller may e
    | inr (may_not, e) ↦ outsider claims caller may_not e
  ]

  module _ {ℓ} {T : Type ℓ} (verify : String → Option Claims) (rate : TokenBucket T)
      (split_host_port : String → Option String) where
    per_caller-IsGuarded :
        (l : Limits T) (now : ℕ) (c : Protected) (r : HttpRequest) (claims : Claims)
        → IsCaller verify r claims
        → IsGuarded config reserve verify c r
            (per_caller config reserve verify rate split_host_port l now c
              (record r { claims = some claims })).1
    per_caller-IsGuarded l now c r claims caller =
        elim (Bool-cases (limit rate (by_subject (some claims)) now l.per_subject).0) [
          | inl e ↦ rw e (endpoint-IsGuarded verify c r claims caller)
          | inr e ↦ rw e (throttled refl)
        ]

    routed-IsGuarded :
        (l : Limits T) (c : Protected) (i : Incoming)
        → IsGuarded config reserve verify c
            (http i)
            (routed config reserve verify rate split_host_port l i (to_callers c)).1
    routed-IsGuarded l c i =
        elim (middleware-cases verify
          (λ r. served (per_caller config reserve verify rate split_host_port l i.now c r))
          (http i)) [
            | inl (claims, caller, e) ↦ rw e (per_caller-IsGuarded l i.now c (http i) claims caller)
            | inr (h, e) ↦ rw e (nobody h refl)
          ]

    -- A request for a route of the group reaches the handler only with a token that is valid, as the
    -- caller of that token, and a new sale only where that caller is in the vendors' group. Any other
    -- request is answered by 401, 403 or 429 before anything has been read or written.
    pub mount-IsGuarded :
        (l : Limits T) (i : Incoming) (c : Protected)
        → i.route ≡ to_callers c
        → IsGuarded config reserve verify c
            (http i)
            (mount config reserve verify rate split_host_port l i).1
    unfolding mount
    mount-IsGuarded l i c asked =
        elim (Bool-cases (limit rate (by_ip split_host_port i.remote_addr) i.now l.per_ip).0) [
          | inl e ↦ rw (e, asked) (routed-IsGuarded _ c i)
          | inr e ↦ rw e (throttled refl)
        ]
