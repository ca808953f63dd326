-- ===== src/Orders/Release.antt =====
-- A cancellation and a payment that failed: the unit goes back on sale.
use doorbust.Base.{
  ℕ, ◌+◌, ◌≤◌, ◌==◌, String, Bool, true, false, ◌≡◌, refl, some, find, update_first, find-IsRow,
  sum, update_first-hit, update_first-Replaces, find-update_first, List, arith, IsRow, ==→eq,
  ==-same,
}
use mathlib.Core.Path.{subst, sym}
use doorbust.Store.{
  Db, Order, Stock, Status, Customer, is_live, is_pending, is_awaiting_payment, cancelled, failed,
  ok,
}
use doorbust.Queries.Turns.{Turn}
use doorbust.Queries.StockRows.{release_stock, has_reservation, release_one}
use doorbust.Queries.OrderRows.{
  has_intent, find_order_by_id, cancel_pending_order, fail_order, with_status,
}
use doorbust.Session.{call, commit, in_transaction, ◌>>=◌, attempt, pure}
use doorbust.Session.Calm.{calm, calm_turn, idle}
use doorbust.Auth.{Claims}
use doorbust.Orders.Service.{
  owns, check_owner, or_not_pending, cancel_order, fail_payment, after_fail,
}
use doorbust.Orders.Payment.{find_order_by_payment_intent_id_lem}
use doorbust.Orders.Transitions.{guarded_row, Turned, guarded-some}
use doorbust.Ledger.{
  flaw_of, reserved, reserved_of, quantity, quantity_of, live, live_of, IsBalanced,
}

-- The row of stock that a release leaves, and the table around it.
record Releases (p : ℕ) (turn : Turn) (db : Db) (r : Stock × List Stock) : Type 0 where
  answer : release_stock p turn db ≡ (ok r.0, record db { stock = r.1 })
  less : sum (reserved_of p) r.1 + 1 ≡ reserved p db
  kept : sum (quantity_of p) r.1 ≡ quantity p db

released_row :
    (p : ℕ) (turn : Turn) (db : Db) (y : Stock) (ys : List Stock)
    → sum (flaw_of db.products) db.stock ≡ 0
    → update_first (has_reservation p) release_one db.stock ≡ some (y, ys)
    → Releases p turn db (y, ys)
unfolding release_stock
released_row p turn db y ys sound e =
    let (x, hit, new, weigh, member) =
      update_first-Replaces (has_reservation p) release_one db.stock y ys e in
    record {
      answer = rw e (ground (arith, new, hit, member (flaw_of db.products)));
      less = ground (arith, new, hit, weigh (reserved_of p));
      kept = ground (arith, new, hit, weigh (quantity_of p));
    }

release_stock-accepted :
    (p : ℕ) (turn : Turn) (db : Db)
    → sum (flaw_of db.products) db.stock ≡ 0
    → 1 ≤ reserved p db
    → (r : Stock × List Stock) × Releases p turn db r
release_stock-accepted p turn db sound held =
    let (r, e) =
      update_first-hit (has_reservation p) release_one (reserved_of p) db.stock
        (λ x miss. ground arith) held in
    (r, released_row p turn db r.0 r.1 sound e)

-- What has become of the database once the order has let its unit go.
pub record Released (t : Order → Bool) (s : Status) (o : Order) (before after : Db) : Type 0 where
  pub settled : find t after.orders ≡ some (with_status s o)
  pub freed : reserved o.product_id after + 1 ≡ reserved o.product_id before
  pub no_longer_live : live o.product_id after + 1 ≡ live o.product_id before
  pub kept : quantity o.product_id after ≡ quantity o.product_id before

-- The UPDATE of the order and that of its stock, which both meet a row.
pub record Steps (turn : Turn) (db : Db) (guard : Status → Bool) (s : Status) (o : Order)
    (t : Order → Bool) (y : Order) (ys : List Order) (u : Stock) (rows : List Stock) : Type 0 where
  pub met : update_first (guarded_row guard o.id) (with_status s) db.orders ≡ some (y, ys)
  pub answer :
      release_stock y.product_id turn (record db { orders = ys })
      ≡ (ok u, record db { orders = ys; stock = rows })
  pub released : Released t s o db (record db { orders = ys; stock = rows })

module _ (now nextval : ℕ) (db : Db) (guard : Status → Bool) (s : Status) (o : Order)
    (books : IsBalanced o.product_id db) (row : IsRow db.orders o) (fits : guard o.status ≡ true)
    (was_live : is_live o.status ≡ true) (ends : is_live s ≡ false) (t : Order → Bool)
    (same : (z : Order) → t (with_status s z) ≡ t z) (found : find t db.orders ≡ some o)
    (lives : (z : Order) → guard z.status ≡ true → is_live z.status ≡ true) where
  abbrev turn : Turn
  turn = calm_turn now nextval

  rows-Released :
      (y : Order) (ys : List Order) (u : Stock) (rows : List Stock)
      → Turned db guard s o y ys
      → Releases o.product_id turn (record db { orders = ys }) (u, rows)
      → Released t s o db (record db { orders = ys; stock = rows })
  rows-Released y ys u rows turned releases =
      let (x, hit, new, weigh, member) =
        update_first-Replaces (guarded_row guard o.id) (with_status s) db.orders y ys turned.met in
      record {
        settled =
            find-update_first (λ z. z.id) (guarded_row guard o.id) t (with_status s) o.id
              (λ x hit. ==→eq x.id o.id (ground arith)) same db.orders o y ys
              (omega (arith, books.sound)) found (ground (arith, ==-same o.id)) turned.met;
        freed = releases.less;
        no_longer_live =
            ground (arith, new, hit, lives x, turned.product, weigh (live_of o.product_id));
        kept = releases.kept;
      }

  live_of-live : live_of o.product_id o ≡ 1
  live_of-live = ground (arith, was_live, ==-same o.product_id)

  held : 1 ≤ reserved o.product_id db
  held = omega (arith, books.matched, row (live_of o.product_id), live_of-live)

  pub both_meet :
      (y : Order) × (ys : List Order) × (u : Stock) × (rows : List Stock) × Steps turn db guard s o
        t y ys u rows
  both_meet =
      let ((y, ys), turned) = guarded-some db guard s o books.sound row fits in
      let ((u, rows), releases) =
        release_stock-accepted o.product_id turn (record db { orders = ys })
          (omega (arith, books.sound)) held in
      (
        y,
        ys,
        u,
        rows,
        record {
          met = turned.met;
          answer =
              subst
                (λ q.
                  release_stock q turn (record db { orders = ys })
                  ≡ (ok u, record db { orders = ys; stock = rows }))
                (sym turned.product) releases.answer;
          released = rows-Released y ys u rows turned releases;
        },
      )

module _ (now nextval : ℕ) (db : Db) (o : Order) (c : Customer) (books : IsBalanced o.product_id db)
    (owner : find (λ c. c.id == o.customer_id) db.customers ≡ some c) where
  cancel_order-run :
      (claims : Claims)
      → find (λ x. x.id == o.id) db.orders ≡ some o
      → owns c.cognito_sub c.email claims ≡ true
      → (y : Order) (ys : List Order) (u : Stock) (rows : List Stock)
      → Steps (calm_turn now nextval) db is_pending cancelled o (λ x. x.id == o.id) y ys u rows
      → ((cancel_order o.id claims (calm now nextval) (idle db)).0 ≡ ok y)
        × ((cancel_order o.id claims (calm now nextval) (idle db)).1.shared
            ≡ record db { orders = ys; stock = rows })
  unfolding cancel_order check_owner or_not_pending find_order_by_id cancel_pending_order
      in_transaction call commit ◌>>=◌ attempt pure
  cancel_order-run claims found mine y ys u rows steps =
      rw found (rw owner (rw mine (rw steps.met (rw steps.answer (refl, refl)))))

  -- A cancellation by the owner of a pending order answers with the order and puts its unit back on
  -- sale: the order is cancelled, one unit less is reserved, and the number of units stays. Here the
  -- product's books are in order, the id leads to the order and the order to its customer, and
  -- nothing else happens meanwhile.
  pub cancel_order-releases :
      (claims : Claims)
      → find (λ x. x.id == o.id) db.orders ≡ some o
      → owns c.cognito_sub c.email claims ≡ true
      → is_pending o.status ≡ true
      → ((y : Order) × ((cancel_order o.id claims (calm now nextval) (idle db)).0 ≡ ok y))
        × Released
            (λ x. x.id == o.id)
            cancelled
            o
            db
            (cancel_order o.id claims (calm now nextval) (idle db)).1.shared
  cancel_order-releases claims found mine fits =
      let (y, ys, u, rows, steps) =
        both_meet now nextval db is_pending cancelled o books
          (find-IsRow (λ x. x.id == o.id) db.orders o found) fits (ground (arith, fits)) refl
          (λ x. x.id == o.id) (λ z. refl) found (λ z h. ground arith) in
      let (answer, ends) = cancel_order-run claims found mine y ys u rows steps in
      ((y, answer), subst (Released (λ x. x.id == o.id) cancelled o db) (sym ends) steps.released)

  fail_payment-run :
      (intent : String)
      → find (has_intent intent) db.orders ≡ some o
      → (y : Order) (ys : List Order) (u : Stock) (rows : List Stock)
      → Steps
          (calm_turn now nextval)
          db
          is_awaiting_payment
          failed
          o
          (has_intent intent)
          y
          ys
          u
          rows
      → ((fail_payment intent (calm now nextval) (idle db)).0 ≡ ok tt)
        × ((fail_payment intent (calm now nextval) (idle db)).1.shared
            ≡ record db { orders = ys; stock = rows })
  unfolding fail_payment after_fail fail_order in_transaction call commit ◌>>=◌ attempt pure
  fail_payment-run intent found y ys u rows steps =
      rw (find_order_by_payment_intent_id_lem (calm_turn now nextval) db intent o c found owner)
        (rw steps.met (rw steps.answer (refl, refl)))

  -- A payment that failed, for an order that awaits one, puts the order's unit back on sale, under
  -- the same conditions, the order being the one that the intent leads to.
  pub fail_payment-releases :
      (intent : String)
      → find (has_intent intent) db.orders ≡ some o
      → is_awaiting_payment o.status ≡ true
      → ((fail_payment intent (calm now nextval) (idle db)).0 ≡ ok tt)
        × Released
            (has_intent intent)
            failed
            o
            db
            (fail_payment intent (calm now nextval) (idle db)).1.shared
  fail_payment-releases intent found fits =
      let (y, ys, u, rows, steps) =
        both_meet now nextval db is_awaiting_payment failed o books
          (find-IsRow (has_intent intent) db.orders o found) fits (ground (arith, fits)) refl
          (has_intent intent) (λ z. refl) found (λ z h. ground arith) in
      let (answer, ends) = fail_payment-run intent found y ys u rows steps in
      (answer, subst (Released (has_intent intent) failed o db) (sym ends) steps.released)
