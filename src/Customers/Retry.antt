-- ===== src/Customers/Retry.antt =====
-- What becomes of a retry of the link inside a transaction.
use doorbust.Base.{some, ℕ, suc, Bool, true, false, ◌≡◌, refl, str_eq, ◌||◌, inl, inr, Bool-cases}
use doorbust.Store.{
  Db, Customer, Result, ok, err, Error, no_rows, unique_violation, in_failed_transaction,
}
use doorbust.Queries.Turns.{Query, Fault, fine, refused, lost}
use doorbust.Queries.CustomerRows.{find_customer_by_sub}
use doorbust.Session.{World, Env, tx, call, arrive, in_view, pure, fail, attempt, ◌>>=◌}
use doorbust.Auth.{Claims}
use doorbust.Customers.{by_email, by_sub, link_once, after_try, link_loop, link}

-- The transaction that met a violation is out of use.
abbrev Stuck : {A : Type 0} → Result A → World → Type 0
Stuck (ok _) w = Unit
Stuck (err unique_violation) w = w.aborted ≡ true
Stuck (err _) w = Unit

module _ {A : Type 0} where
  in_view-Stuck :
      (b : Bool) (f : Fault) (r : Result A × Db) (w : World)
      → Stuck (in_view b f r w).0 (in_view b f r w).1
  in_view-Stuck true f r w = tt
  in_view-Stuck false fine (ok _, db) w = tt
  in_view-Stuck false fine (err unique_violation, db) w = refl
  in_view-Stuck false fine (err _, db) w = tt
  in_view-Stuck false refused r w = tt
  in_view-Stuck false lost r w = tt

  call-Stuck : (env : Env) (q : Query A) (w : World) → Stuck (call tx q env w).0 (call tx q env w).1
  unfolding call
  call-Stuck env q w =
      in_view-Stuck w.aborted (env w.at).fault (q (env w.at) (arrive (env w.at) w).view)
        (arrive (env w.at) w)

  call-aborted :
      (env : Env) (q : Query A) (w : World)
      → w.aborted ≡ true
      → (call tx q env w).0 ≡ err in_failed_transaction
  unfolding call
  call-aborted env q w stuck = rw stuck refl

module _ (env : Env) (claims : Claims) where
  by_sub-Stuck :
      (r : Result Customer) (w : World)
      → Stuck r w
      → Stuck (by_sub tx claims r env w).0 (by_sub tx claims r env w).1
  unfolding by_sub by_email pure fail
  by_sub-Stuck (ok c) w h =
      elim (Bool-cases (str_eq c.email claims.email || str_eq claims.email "")) [
        | inl same ↦ rw same tt
        | inr other ↦ rw other (call-Stuck env _ w)
      ]
  by_sub-Stuck (err no_rows) w h = call-Stuck env _ w
  by_sub-Stuck (err unique_violation) w h = h
  by_sub-Stuck (err _) w h = tt

  link_once-Stuck : (w : World) → Stuck (link_once tx claims env w).0 (link_once tx claims env w).1
  unfolding link_once by_email ◌>>=◌ attempt
  link_once-Stuck w = elim (Bool-cases (str_eq claims.subject "")) [
    | inl no_subject ↦ rw no_subject (call-Stuck env _ w)
    | inr subject ↦ rw subject (by_sub-Stuck _ _ (call-Stuck env _ w))
  ]

  link_once-aborted :
      (w : World) → w.aborted ≡ true → (link_once tx claims env w).0 ≡ err in_failed_transaction
  unfolding link_once by_email by_sub fail ◌>>=◌ attempt
  link_once-aborted w stuck = elim (Bool-cases (str_eq claims.subject "")) [
    | inl no_subject ↦ rw no_subject (call-aborted env _ w stuck)
    | inr subject ↦
        rw subject (rw (call-aborted env (find_customer_by_sub (some claims.subject)) w stuck) refl)
  ]

  link_loop-aborted :
      (n : ℕ) (e : Error) (w : World)
      → w.aborted ≡ true
      → (link_loop (suc n) e tx claims env w).0 ≡ err in_failed_transaction
  unfolding link_loop after_try fail ◌>>=◌ attempt
  link_loop-aborted n e w stuck = rw (link_once-aborted w stuck) refl

  after_violation :
      (r : Result Customer) (w : World)
      → Stuck r w
      → r ≡ err unique_violation
      → (after_try (λ e. link_loop 2 e tx claims) r env w).0 ≡ err in_failed_transaction
  unfolding after_try
  after_violation (ok _) w h lost' = cc
  after_violation (err unique_violation) w h lost' = link_loop-aborted 1 unique_violation w h
  after_violation (err _) w h lost' = cc

-- Inside a transaction a lost race for a new customer is not made up for by trying again: whatever
-- else happens, the link answers that the transaction is out of use, not that the race was lost, and
-- never with the customer.
pub link-no_retry_in_transaction :
    (env : Env) (claims : Claims) (w : World)
    → (link_once tx claims env w).0 ≡ err unique_violation
    → (link tx claims env w).0 ≡ err in_failed_transaction
unfolding link link_loop ◌>>=◌ attempt
link-no_retry_in_transaction env claims w race =
    after_violation env claims (link_once tx claims env w).0 (link_once tx claims env w).1
      (link_once-Stuck env claims w) race
