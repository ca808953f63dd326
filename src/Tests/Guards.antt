-- ===== src/Tests/Guards.antt =====
-- Requests for the vendors' route: with and without a token, and from a buyer.

use doorbust.Base.{String, ◌≡◌, refl, Option, none, some, [], ◌∷◌, str_eq, if◌then◌else◌}
use doorbust.Auth.{Claims, contains, has_group}
use doorbust.Auth.Middleware.{
  HttpRequest, served, refused, Handler, strip_prefix, middleware, require_group,
}
use doorbust.Tests.Shop.{ann}

abbrev vendor : Claims
vendor = record {
  subject = "sub-vic";
  email = "vic@example.com";
  groups = "staff" ∷ "vendors" ∷ [];
}

abbrev verify : String → Option Claims
verify token =
    if str_eq token "vic" then some vendor else if str_eq token "ann" then some ann else none

-- It answers with the identity on the context.
abbrev whoami : Handler (Option Claims)
whoami r = served r.claims

abbrev from_header : String → HttpRequest
from_header header = record { authorization = header; claims = none }

abbrev create_product_route : Handler (Option Claims)
create_product_route = middleware verify (require_group "vendors" whoami)

by_vendor : create_product_route (from_header "Bearer vic") ≡ served (some vendor)
unfolding middleware require_group strip_prefix contains has_group
by_vendor = refl

by_buyer : create_product_route (from_header "Bearer ann") ≡ refused 403
unfolding middleware require_group strip_prefix contains has_group
by_buyer = refl

-- The scheme is compared by its letters.
by_scheme : create_product_route (from_header "bearer vic") ≡ refused 401
unfolding middleware strip_prefix
by_scheme = refl

by_forger : create_product_route (from_header "Bearer mallory") ≡ refused 401
unfolding middleware strip_prefix
by_forger = refl

-- Middleware has not run.
unwired : require_group "vendors" whoami (from_header "Bearer vic") ≡ refused 401
unfolding require_group
unwired = refl
