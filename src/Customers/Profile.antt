-- ===== src/Customers/Profile.antt =====
-- internal/customers/service.go and handler.go: the profile of the caller.
pub mod Vendor
use doorbust.Base.{ℕ, String, Bool, Option, none, some, List, str_eq, if◌then◌else◌}
use doorbust.Store.{Customer, Result, ok, err}
use doorbust.Session.{M, pure, attempt, ◌>>=◌, pool}
use doorbust.Auth.{Claims, has_group}
use doorbust.Customers.{link}
use doorbust.Orders.Handler.{internal_code, invalid_request_code, unauthorized_code}
use doorbust.Orders.Handler.Routes.{Reply, sent, rejected, string_of}

unfoldable pub get_or_create : Claims → M Customer
get_or_create claims = link pool claims

pub record MeResponse : Type 0 where
  pub id : ℕ
  pub email : String
  pub subject : String
  pub groups : List String
  pub is_vendor : Bool

abbrev pub me_response : String → Claims → Customer → MeResponse
me_response vendor_group claims customer = record {
  id = customer.id;
  email = customer.email;
  subject = string_of customer.cognito_sub;
  groups = claims.groups;
  is_vendor = has_group claims vendor_group;
}

abbrev pub profile : String → Claims → Result Customer → Reply MeResponse
profile vendor_group claims (ok customer) = sent 200 (me_response vendor_group claims customer)
profile vendor_group claims (err e) = rejected 500 internal_code

abbrev me : String → Claims → M (Reply MeResponse)
me vendor_group claims =
    if str_eq claims.email ""
    then pure (rejected 400 invalid_request_code)
    else do customer ← attempt (get_or_create claims); pure (profile vendor_group claims customer)

unfoldable pub get_me : String → Option Claims → M (Reply MeResponse)
get_me vendor_group none = pure (rejected 401 unauthorized_code)
get_me vendor_group (some claims) = me vendor_group claims
