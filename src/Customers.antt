-- ===== src/Customers.antt =====
-- From a verified caller to a row of `customers` (internal/customers/link.go, resolver.go).
pub mod Profile
pub mod Balance
pub mod Retry
use doorbust.Base.{ℕ, zero, suc, String, Option, none, some, ◌||◌, str_eq, if◌then◌else◌}
use doorbust.Store.{Customer, Error, Result, ok, err, no_rows, unique_violation}
use doorbust.Session.{M, pure, fail, attempt, ◌>>=◌, ◌>>◌, Querier, call, load_id, store_id}
use doorbust.Queries.CustomerRows.{find_customer_by_sub, update_customer_email, link_customer}
use doorbust.Auth.{Claims}

-- pgtype.Text{String: claims.Subject, Valid: claims.Subject != ""}
abbrev pub sub_of : Claims → Option String
sub_of claims = if str_eq claims.subject "" then none else some claims.subject

unfoldable pub by_email : Querier → Claims → M Customer
by_email q claims = call q (link_customer claims.email (sub_of claims))

-- The subject's row, with a changed email adopted; without such a row, by email.
unfoldable pub by_sub : Querier → Claims → Result Customer → M Customer
by_sub q claims (ok existing) =
    if str_eq existing.email claims.email || str_eq claims.email ""
    then pure existing
    else call q (update_customer_email existing.id claims.email)
by_sub q claims (err no_rows) = by_email q claims
by_sub q claims (err e) = fail e

unfoldable pub link_once : Querier → Claims → M Customer
link_once q claims =
    if str_eq claims.subject ""
    then by_email q claims
    else (attempt (call q (find_customer_by_sub (sub_of claims))) >>= by_sub q claims)

-- Only a lost race is tried again.
unfoldable pub after_try : (Error → M Customer) → Result Customer → M Customer
after_try again (ok customer) = pure customer
after_try again (err unique_violation) = again unique_violation
after_try again (err e) = fail e

unfoldable pub link_loop : ℕ → Error → Querier → Claims → M Customer
link_loop zero last_err q claims = fail last_err
link_loop (suc n) last_err q claims =
    attempt (link_once q claims) >>= after_try (λ e. link_loop n e q claims)

abbrev pub link_attempts : ℕ
link_attempts = 3

-- With a positive number of attempts `lastErr` is never returned unset.
unfoldable pub link : Querier → Claims → M Customer
link = link_loop link_attempts no_rows

-- The interface customers.Resolver.
abbrev pub Resolver : Type 0
Resolver = Querier → Claims → M ℕ

unfoldable pub direct_resolve : Resolver
direct_resolve q claims = do customer ← link q claims; pure customer.id

unfoldable pub after_load : Querier → Claims → Option ℕ → M ℕ
after_load q claims (some id) = pure id
after_load q claims none = do id ← direct_resolve q claims; store_id claims.subject id; pure id

-- A caller without a subject is never remembered.
unfoldable pub cached_resolve : Resolver
cached_resolve q claims =
    if str_eq claims.subject ""
    then direct_resolve q claims
    else (load_id claims.subject >>= after_load q claims)
