-- ===== src/Customers/Balance.antt =====
-- Linking a caller to a customer leaves every product's books alone, on the pool as in a
-- transaction, and however often it is tried.
use doorbust.Base.{Option, none, some, ℕ, zero, suc, String, str_eq, ◌||◌}
use doorbust.Store.{Db, Customer, Result, ok, err, no_rows, unique_violation, Error}
use doorbust.Session.{World, Env, M, Querier, pool, tx, call, pure, load_id, store_id}
use doorbust.Session.Rules.{Holds, Post, Holds-pure, Holds-fail, Holds-if, Holds-bind}
use doorbust.Auth.{Claims}
use doorbust.Customers.{
  sub_of, by_email, by_sub, link_once, after_try, link_loop, link, Resolver, direct_resolve,
  after_load, cached_resolve,
}
use doorbust.Queries.CustomerRows.{find_customer_by_sub, update_customer_email, link_customer}
use doorbust.Ledger.OtherEffects.{
  find_customer_by_sub-Moves, update_customer_email-Moves, link_customer-Moves,
}
use doorbust.Ledger.{Account}
use doorbust.Ledger.Actions.{RelyOn}
use doorbust.Ledger.Quiet.{Kept, Keeps, Keeps-call, Holds-attempt}

-- The statements of a link, none of which touches what K is about.
pub record CustomerCalls (env : Env) (K : World → Type 0) (q : Querier) : Type 0 where
  pub found : (sub : Option String) → Keeps env K (call q (find_customer_by_sub sub))
  pub updated : (id : ℕ) (email : String) → Keeps env K (call q (update_customer_email id email))
  pub linked :
      (email : String) (sub : Option String) → Keeps env K (call q (link_customer email sub))
  pub remembered : (w : World) (ids : String → Option ℕ) → K w → K (record w { ids = ids })

module _ {env : Env} {K : World → Type 0} {q : Querier} (calls : CustomerCalls env K q)
    (claims : Claims) where
  by_email-Keeps : Keeps env K (by_email q claims)
  unfolding by_email
  by_email-Keeps = calls.linked claims.email (sub_of claims)

  by_sub-Keeps :
      (r : Result Customer) → Holds env (Post (λ _. K) K r) (by_sub q claims r) (λ _. K) K
  unfolding by_sub
  by_sub-Keeps (ok c) =
      Holds-if (str_eq c.email claims.email || str_eq claims.email "") (pure c) _
        (λ _. Holds-pure c) (λ _. calls.updated c.id claims.email)
  by_sub-Keeps (err no_rows) = by_email-Keeps
  by_sub-Keeps (err e) = Holds-fail e (λ _ h. h)

  link_once-Keeps : Keeps env K (link_once q claims)
  unfolding link_once
  link_once-Keeps =
      Holds-if (str_eq claims.subject "") (by_email q claims) _ (λ _. by_email-Keeps)
        (λ _. Holds-bind _ _ _ (Holds-attempt _ (calls.found (sub_of claims))) by_sub-Keeps)

  after_try-Keeps :
      (again : Error → M Customer) (r : Result Customer)
      → ((e : Error) → Keeps env K (again e))
      → Holds env (Post (λ _. K) K r) (after_try again r) (λ _. K) K
  unfolding after_try
  after_try-Keeps again (ok c) h = Holds-pure c
  after_try-Keeps again (err unique_violation) h = h unique_violation
  after_try-Keeps again (err e) h = Holds-fail e (λ _ h. h)

  link_loop-Keeps : (n : ℕ) (e : Error) → Keeps env K (link_loop n e q claims)
  unfolding link_loop
  link_loop-Keeps zero e = Holds-fail e (λ _ h. h)
  link_loop-Keeps (suc n) e =
      Holds-bind _ _ _ (Holds-attempt _ link_once-Keeps)
        (λ r. after_try-Keeps (λ e. link_loop n e q claims) r (link_loop-Keeps n))

  store_id-Keeps : (id : ℕ) → Keeps env K (store_id claims.subject id)
  unfolding store_id
  store_id-Keeps id = record { at = λ w h. calls.remembered w _ h }

  load_id-Keeps : Keeps env K (load_id claims.subject)
  unfolding load_id
  load_id-Keeps = record { at = λ w h. h }

  pub link-CustomerCalls : Keeps env K (link q claims)
  unfolding link
  link-CustomerCalls = link_loop-Keeps _ no_rows

  pub direct_resolve-CustomerCalls : Keeps env K (direct_resolve q claims)
  unfolding direct_resolve
  direct_resolve-CustomerCalls = Holds-bind _ _ _ link-CustomerCalls (λ c. Holds-pure c.id)

  after_load-Keeps : (r : Option ℕ) → Keeps env K (after_load q claims r)
  unfolding after_load
  after_load-Keeps (some id) = Holds-pure id
  after_load-Keeps none =
      Holds-bind _ _ _ direct_resolve-CustomerCalls
        λ id. Holds-bind _ _ _ (store_id-Keeps id) λ _. Holds-pure id

  pub cached_resolve-CustomerCalls : Keeps env K (cached_resolve q claims)
  unfolding cached_resolve
  cached_resolve-CustomerCalls =
      Holds-if (str_eq claims.subject "") (direct_resolve q claims) _
        (λ _. direct_resolve-CustomerCalls) (λ _. Holds-bind _ _ _ load_id-Keeps after_load-Keeps)

-- A resolver that leaves the accounts alone.
pub record ResolverKeeps (p : Account) (env : Env) (resolve : Resolver) : Type 0 where
  pub keeps :
      (base : Db) (q : Querier) (claims : Claims) → Keeps env (Kept p base q) (resolve q claims)

Kept-remembered :
    (p : Account) (base : Db) (q : Querier) (w : World) (ids : String → Option ℕ)
    → Kept p base q w
    → Kept p base q (record w { ids = ids })
Kept-remembered p base pool w ids h = record { kept = h.kept }
Kept-remembered p base tx w ids h = record { kept = h.kept; ahead = h.ahead }

pub Rely-CustomerCalls :
    {env : Env} {p : Account}
    → RelyOn p env
    → (base : Db) (q : Querier) → CustomerCalls env (Kept p base q) q
Rely-CustomerCalls {p = p} rely base q = record {
  found = λ sub. Keeps-call rely base q _ (find_customer_by_sub-Moves p sub);
  updated = λ id email. Keeps-call rely base q _ (update_customer_email-Moves p id email);
  linked = λ email sub. Keeps-call rely base q _ (link_customer-Moves p email sub);
  remembered = Kept-remembered p base q;
}

pub direct_resolve-Keeps :
    {env : Env} {p : Account} → RelyOn p env → ResolverKeeps p env direct_resolve
direct_resolve-Keeps rely = record {
  keeps = λ base q claims. direct_resolve-CustomerCalls (Rely-CustomerCalls rely base q) claims;
}

pub cached_resolve-Keeps :
    {env : Env} {p : Account} → RelyOn p env → ResolverKeeps p env cached_resolve
cached_resolve-Keeps rely = record {
  keeps = λ base q claims. cached_resolve-CustomerCalls (Rely-CustomerCalls rely base q) claims;
}
