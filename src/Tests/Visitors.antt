-- ===== src/Tests/Visitors.antt =====
-- Requests over HTTP: a buyer with a token, one without, and a buyer who asks for what is a vendor's.
use mathlib.Core.List.{Memᴰ}
use doorbust.Base.{
  ℕ, String, ◌≡◌, refl, Option, none, some, List, [], ◌∷◌, str_eq, if◌then◌else◌, Bool-cases, inl,
  inr,
}
use doorbust.Session.{Env}
use doorbust.Session.Calm.{calm, idle}
use doorbust.Auth.{Claims, contains, has_group}
use doorbust.Auth.Middleware.{strip_prefix, middleware, require_group}
use doorbust.RateLimit.{middleware as limit, by_ip, by_subject, allow, evict_locked}
use doorbust.Ledger.Calm.{calm-RelyOn}
use doorbust.Orders.Handler.{pos}
use doorbust.Program.Mount.{
  new_product, place, one_product, me, Route, to_all, to_callers, Incoming, Limits, endpoint, mount,
  http, mount_history, refusal, too_many,
}
use doorbust.Program.Mount.Guard.{IsGuarded, mount-IsGuarded}
use doorbust.Program.Mount.Books.{IsNoVendor, mount_history-StaysSound}
use doorbust.Program.NoOversell.{StaysSound}
use doorbust.Tests.Shop.{shop, config, arm, ann}
use doorbust.Tests.Books.{booted, shop-IsBalanced}
use doorbust.Tests.Limits.{tokens, limiter}

-- There is one valid token.
abbrev verify : String → Option Claims
verify token = if str_eq token "ann" then some ann else none

-- The port of every address is cut off beforehand.
abbrev no_port : String → Option String
no_port remote_addr = none

abbrev limits : Limits ℕ
limits = record { per_ip = limiter; per_subject = limiter }

abbrev ask_as : String → ℕ → Route → Incoming
ask_as authorization now route = record {
  remote_addr = "10.0.0.1";
  authorization = authorization;
  now = now;
  route = route;
}

abbrev sale : Incoming
sale = ask_as "Bearer ann" 100 (to_callers (new_product none))

refused_sale : (mount config arm verify tokens no_port limits sale).1 ≡ refusal 403
unfolding mount limit by_ip by_subject allow evict_locked middleware strip_prefix endpoint
    require_group has_group contains
refused_sale = refl

without_token :
    (mount config arm verify tokens no_port limits (ask_as "" 100 (to_callers me))).1 ≡ refusal 401
unfolding mount limit by_ip allow evict_locked middleware strip_prefix
without_token = refl

-- The third request from one address.
third :
    let first = mount config arm verify tokens no_port limits sale in
    let second = mount config arm verify tokens no_port first.0 sale in
    (mount config arm verify tokens no_port second.0
      (ask_as "" 101 (to_all (one_product (some 7))))).1
    ≡ too_many
unfolding mount limit by_ip by_subject allow evict_locked middleware strip_prefix
third = refl

mount-IsGuarded_example :
    IsGuarded config arm verify
      (new_product none)
      (http sale)
      (mount config arm verify tokens no_port limits sale).1
mount-IsGuarded_example =
    mount-IsGuarded config arm verify tokens no_port limits sale (new_product none) refl

only_ann : (token : String) (claims : Claims) → verify token ≡ some claims → claims.groups ≡ []
only_ann token claims h = elim (Bool-cases (str_eq token "ann")) [
  | inl e ↦ let same : some ann ≡ some claims = rw e at h in cc
  | inr e ↦ let none_found : none ≡ some claims = rw e at h in cc
]

no_member : (groups : List String) → groups ≡ [] → Memᴰ "vendors" groups → ⊥
no_member [] e m = elim m [ ]
no_member (g ∷ gs) e m = cc

no_vendor : (i : Incoming) → IsNoVendor config verify i
no_vendor i claims caller m = no_member claims.groups (only_ann caller.token claims caller.valid) m

abbrev buy : Incoming
buy = ask_as "Bearer ann" 40 (to_callers (place "k1" (some (pos 7))))

abbrev look : Incoming
look = ask_as "" 50 (to_all (one_product (some 7)))

abbrev visits : List (Env × Incoming)
visits = (calm 40 11, buy) ∷ (calm 50 13, look) ∷ (calm 51 14, sale) ∷ []

mount_history-StaysSound_example :
    StaysSound 7 shop
      (mount_history config arm verify tokens no_port limits visits (idle shop)).shared
mount_history-StaysSound_example =
    mount_history-StaysSound config arm booted verify tokens no_port 7 limits visits
      (
        (calm-RelyOn 40 11, no_vendor buy),
        ((calm-RelyOn 50 13, no_vendor look), ((calm-RelyOn 51 14, no_vendor sale), tt)),
      )
      (idle shop) shop-IsBalanced
