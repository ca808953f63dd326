-- ===== src/Orders/Access.antt =====
-- Who may see and cancel an order.
use doorbust.Base.{
  ℕ, String, not, ap, eq_iff, true, false, ◌&&◌, ◌≡◌, ◌⊎◌, inl, inr, refl, Option, none, some,
  str_eq, if◌then◌else◌, find, ◌==◌, Bool-cases, arith, find-IsRow,
}
use doorbust.Store.{
  Db, Order, Customer, is_pending, cancelled, Result, ok, err, forbidden, order_not_pending,
}
use doorbust.Session.{World, Env, call, pool, pure, fail, in_transaction, commit, attempt, ◌>>=◌}
use doorbust.Session.Rules.{Holds, Post, Holds-return, Holds-fail, Holds-bind}
use doorbust.Session.Calm.{calm, idle}
use doorbust.Auth.{Claims}
use doorbust.Queries.OrderRows.{OwnedOrder, find_order_by_id, cancel_pending_order}
use doorbust.Orders.Service.{owns, check_owner, get_order, cancel_order, or_not_pending}
use doorbust.Orders.Transitions.{guarded-none}
use doorbust.Ledger.{flaws}

abbrev Any : World → Type 0
Any w = Unit

nothing :
    {A : Type 0} (S : A → World → Type 0) (r : Result A) (w : World)
    → ((a : A) → S a w)
    → Post S Any r w
nothing S (ok a) w h = h a
nothing S (err e) w h = tt

-- Where both sides have a subject the two are the same: sharing an email is not enough. Where one has
-- none, the emails are the same, and not empty.
pub data IsOwner (sub : Option String) (email : String) (claims : Claims) : Type 0 where
  same_subject : sub ≡ some claims.subject → (claims.subject ≡ "" → ⊥) → IsOwner sub email claims
  same_email :
      (sub ≡ none) ⊎ (claims.subject ≡ "")
      → email ≡ claims.email
      → (email ≡ "" → ⊥)
      → IsOwner sub email claims

different : (s t : String) → str_eq s t ≡ false → s ≡ t → ⊥
different s t h e = let same = (eq_iff s t).1 e in cc

shares_email :
    (sub : Option String) (email : String) (claims : Claims)
    → (sub ≡ none) ⊎ (claims.subject ≡ "")
    → (not (str_eq email "") && str_eq email claims.email) ≡ true
    → IsOwner sub email claims
shares_email sub email claims lacking h = elim (Bool-cases (str_eq email "")) [
  | inl e ↦ let impossible : false ≡ true = rw e at h in cc
  | inr e ↦ same_email lacking ((eq_iff email claims.email).0 (rw e at h)) (different email "" e)
]

owns_lem :
    (sub : Option String) (email : String) (claims : Claims)
    → owns sub email claims ≡ true
    → IsOwner sub email claims
unfolding owns
owns_lem none email claims h = shares_email none email claims (inl refl) h
owns_lem (some s) email claims h = elim (Bool-cases (str_eq claims.subject "")) [
  | inl e ↦ shares_email (some s) email claims (inr ((eq_iff claims.subject "").0 e)) (rw e at h)
  | inr e ↦
      same_subject (ap some ((eq_iff s claims.subject).0 (rw e at h)))
        (different claims.subject "" e)
]

module _ (env : Env) (claims : Claims) where
  call-Any : (id : ℕ) → Holds env Any (call pool (find_order_by_id id)) (λ _. Any) Any
  call-Any id = record {
    at = λ w h.
        nothing (λ _. Any) (call pool (find_order_by_id id) env w).0
          (call pool (find_order_by_id id) env w).1 (λ _. tt);
  }

  check_owner-owns :
      (o : OwnedOrder)
      → Holds env Any
          (check_owner o claims)
          (λ _ _. owns o.customer_cognito_sub o.customer_email claims ≡ true)
          Any
  unfolding check_owner
  check_owner-owns o = elim (Bool-cases (owns o.customer_cognito_sub o.customer_email claims)) [
    | inl mine ↦ rw mine (Holds-return tt (λ _ _. refl))
    | inr other ↦ rw other (Holds-fail forbidden (λ _ _. tt))
  ]

  got-owns :
      {o : OwnedOrder} (r : Result OwnedOrder) (w : World)
      → Post (λ o _. owns o.customer_cognito_sub o.customer_email claims ≡ true) Any r w
      → r ≡ ok o
      → owns o.customer_cognito_sub o.customer_email claims ≡ true
  got-owns (ok a) w h e = cc
  got-owns (err _) w h e = cc

  -- Whatever else happens, an order is shown to nobody but its owner: to a caller with the subject of
  -- its customer, or, where one of the two has no subject, with an email that is the same and not
  -- empty.
  pub get_order-IsOwner :
      (id : ℕ) (w : World) (o : OwnedOrder)
      → (get_order id claims env w).0 ≡ ok o
      → IsOwner o.customer_cognito_sub o.customer_email claims
  unfolding get_order
  get_order-IsOwner id w o answer = owns_lem o.customer_cognito_sub o.customer_email claims (
      got-owns (get_order id claims env w).0 (get_order id claims env w).1
        ((Holds-bind _ _ _ (call-Any id) λ order.
            Holds-bind _ _ _ (check_owner-owns order) λ _. Holds-return order (λ _ h. h)).at
          w tt)
        answer)

-- A cancellation is refused, and changes nothing, for anybody but the owner, and for an order that
-- is not pending: with which error, depends on the owner first. Here no two orders share an id, the
-- id leads to the order and the order to its customer, and nothing else happens meanwhile.
pub cancel_order-refused :
    (now nextval : ℕ) (db : Db) (claims : Claims) (o : Order) (c : Customer)
    → flaws db ≡ 0
    → find (λ x. x.id == o.id) db.orders ≡ some o
    → find (λ c. c.id == o.customer_id) db.customers ≡ some c
    → (owns c.cognito_sub c.email claims && is_pending o.status) ≡ false
    → ((cancel_order o.id claims (calm now nextval) (idle db)).0
        ≡ err (if owns c.cognito_sub c.email claims then order_not_pending else forbidden))
      × ((cancel_order o.id claims (calm now nextval) (idle db)).1.shared ≡ db)
unfolding cancel_order check_owner or_not_pending find_order_by_id cancel_pending_order
    in_transaction call commit ◌>>=◌ attempt pure fail
cancel_order-refused now nextval db claims o c sound found owner refused =
    elim (Bool-cases (owns c.cognito_sub c.email claims)) [
      | inl mine ↦ rw found (
          rw owner (
            rw mine (
              rw
                (guarded-none db is_pending cancelled o sound
                  (find-IsRow (λ x. x.id == o.id) db.orders o found)
                  (ground (arith, mine, refused)))
                (refl, refl))))
      | inr other ↦ rw found (rw owner (rw other (refl, refl)))
    ]
