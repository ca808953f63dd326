-- ===== src/Customers/Profile/Vendor.antt =====
-- What /me says of the caller's permissions.
use doorbust.Base.{
  String, Bool, false, ◌≡◌, refl, ap, some, str_eq, Bool-cases, inl, inr, if◌then◌else◌,
}
use doorbust.Store.{Result, ok, err, Customer}
use doorbust.Session.{World, Env, attempt, pure, ◌>>=◌}
use doorbust.Auth.{Claims, has_group}
use doorbust.Auth.Middleware.{HttpRequest, Handler, refused, require_group}
use doorbust.Orders.Handler.{invalid_request_code}
use doorbust.Orders.Handler.Routes.{Reply, sent, rejected}
use doorbust.Customers.Profile.{MeResponse, get_me, get_or_create, profile}

abbrev vendor_in : Result (Reply MeResponse) → Bool
vendor_in (ok (sent status body)) = body.is_vendor
vendor_in _ = false

profile-vendor :
    (vendor_group : String) (claims : Claims) (c : Result Customer) (body : MeResponse)
    → ok (profile vendor_group claims c) ≡ ok (sent 200 body)
    → has_group claims vendor_group ≡ body.is_vendor
profile-vendor vendor_group claims (ok c) body h =
    ap (λ (r : Result (Reply MeResponse)). vendor_in r) h
profile-vendor vendor_group claims (err e) body h = cc

refused-profile :
    (body : MeResponse) → ok (rejected 400 invalid_request_code) ≡ ok (sent 200 body) → ⊥
refused-profile body h = cc

get_me-has_group :
    (vendor_group : String) (claims : Claims) (env : Env) (w : World) (body : MeResponse)
    → (get_me vendor_group (some claims) env w).0 ≡ ok (sent 200 body)
    → has_group claims vendor_group ≡ body.is_vendor
unfolding get_me attempt pure ◌>>=◌
get_me-has_group vendor_group claims env w body h = elim (Bool-cases (str_eq claims.email "")) [
  | inl e ↦ absurd (refused-profile body (rw e at h))
  | inr e ↦ profile-vendor vendor_group claims (get_or_create claims env w).0 body (rw e at h)
]

-- Where /me calls its caller a vendor, RequireGroup of the same group lets the caller through to the
-- handler behind it, and where it does not, the caller gets 403.
pub get_me-vendor {ℓ} :
    {A : Type ℓ} (vendor_group : String) (claims : Claims) (env : Env) (w : World)
    (body : MeResponse)
    → (get_me vendor_group (some claims) env w).0 ≡ ok (sent 200 body)
    → (next : Handler A) (token : String)
    → let request : HttpRequest = record { authorization = token; claims = some claims } in
      require_group vendor_group next request
      ≡ (if body.is_vendor then next request else refused 403)
unfolding require_group
get_me-vendor vendor_group claims env w body h next token =
    rw (get_me-has_group vendor_group claims env w body h) refl
