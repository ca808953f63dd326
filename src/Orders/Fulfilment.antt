-- ===== src/Orders/Fulfilment.antt =====
-- A payment for an order that awaits one.
use doorbust.Base.{
  ℕ, ◌+◌, ◌≤◌, ◌==◌, String, true, ◌≡◌, refl, some, find, update_first, find-IsRow, sum, ap, ◌∙◌,
  update_first-hit, update_first-Replaces, find-update_first, List, arith, ==→eq, ==-same,
}
use mathlib.Core.Path.{subst, sym}
use doorbust.Store.{Db, Order, Stock, Customer, is_awaiting_payment, completed, ok}
use doorbust.Queries.Turns.{Turn}
use doorbust.Queries.StockRows.{commit_stock, has_reservation, commit_one}
use doorbust.Queries.OrderRows.{has_intent, complete_order, is_awaiting_order, with_status}
use doorbust.Session.{call, commit, in_transaction, ◌>>=◌, attempt}
use doorbust.Session.Calm.{calm, calm_turn, idle}
use doorbust.Orders.Service.{fulfill_payment, after_complete}
use doorbust.Orders.Transitions.{Turned, guarded-some}
use doorbust.Orders.Payment.{
  IsAnswered-completed, find_order_by_payment_intent_id_lem, fulfill_payment-classified,
}
use doorbust.Ledger.Actions.{Drift-refl, Outside}
use doorbust.Ledger.Calm.{calm-RelyOn}
use doorbust.Ledger.Quiet.{Post-out}
use doorbust.Orders.Balance.{fulfill_payment-Outside}
use doorbust.Ledger.{
  books_of, flaw_of, reserved, reserved_of, quantity, quantity_of, sold, sold_of, live_of,
  IsBalanced,
}

-- The row of stock that a committed sale leaves, and the table around it.
pub record Commits (p : ℕ) (turn : Turn) (db : Db) (r : Stock × List Stock) : Type 0 where
  pub answer : commit_stock p turn db ≡ (ok r.0, record db { stock = r.1 })
  pub less : sum (quantity_of p) r.1 + 1 ≡ quantity p db

committed_row :
    (p : ℕ) (turn : Turn) (db : Db) (y : Stock) (ys : List Stock)
    → sum (flaw_of db.products) db.stock ≡ 0
    → update_first (has_reservation p) commit_one db.stock ≡ some (y, ys)
    → Commits p turn db (y, ys)
unfolding commit_stock
committed_row p turn db y ys sound e =
    let (x, hit, new, weigh, member) =
      update_first-Replaces (has_reservation p) commit_one db.stock y ys e in
    record {
      answer = rw e (ground (arith, new, hit, member (flaw_of db.products)));
      less = ground (arith, new, hit, member (flaw_of db.products), weigh (quantity_of p));
    }

commit_stock-accepted :
    (p : ℕ) (turn : Turn) (db : Db)
    → sum (flaw_of db.products) db.stock ≡ 0
    → 1 ≤ reserved p db
    → (r : Stock × List Stock) × Commits p turn db r
commit_stock-accepted p turn db sound held =
    let (r, e) =
      update_first-hit (has_reservation p) commit_one (reserved_of p) db.stock
        (λ x miss. ground arith) held in
    (r, committed_row p turn db r.0 r.1 sound e)

-- What has become of the database once the order is paid for.
pub record Fulfilled (p : ℕ) (intent : String) (o : Order) (before after : Db) : Type 0 where
  pub settled : find (has_intent intent) after.orders ≡ some (with_status completed o)
  pub one_sold : sold p after ≡ sold p before + 1
  pub delivered : quantity p after + 1 ≡ quantity p before
  pub same_customers : after.customers ≡ before.customers

module _ (now nextval : ℕ) (db : Db) (intent : String) (o : Order) (c : Customer)
    (books : IsBalanced o.product_id db) (found : find (has_intent intent) db.orders ≡ some o)
    (owner : find (λ c. c.id == o.customer_id) db.customers ≡ some c)
    (awaiting : is_awaiting_payment o.status ≡ true) where
  fulfilled_run :
      (y : Order) (ys : List Order) (s : Stock) (db' : Db)
      → complete_order o.id (calm_turn now nextval) db ≡ (ok y, record db { orders = ys })
      → commit_stock y.product_id (calm_turn now nextval) (record db { orders = ys }) ≡ (ok s, db')
      → ((fulfill_payment intent (calm now nextval) (idle db)).0 ≡ ok tt)
        × ((fulfill_payment intent (calm now nextval) (idle db)).1.shared ≡ db')
  unfolding fulfill_payment after_complete in_transaction call commit ◌>>=◌ attempt
  fulfilled_run y ys s db' completes commits =
      let lookup =
        find_order_by_payment_intent_id_lem (calm_turn now nextval) db intent o c found owner in
      rw lookup (rw completes (rw commits (refl, refl)))

  rows-Fulfilled :
      (y : Order) (ys : List Order) (s : Stock) (rows : List Stock)
      → Turned db is_awaiting_payment completed o y ys
      → sum (quantity_of o.product_id) rows + 1 ≡ quantity o.product_id db
      → Fulfilled o.product_id intent o db (record db { orders = ys; stock = rows })
  rows-Fulfilled y ys s rows completes less =
      let (x, hit, new, weigh, member) =
        update_first-Replaces (is_awaiting_order o.id) (with_status completed) db.orders y ys
          completes.met in
      record {
        settled =
            find-update_first (λ o. o.id) (is_awaiting_order o.id) (has_intent intent)
              (with_status completed) o.id (λ x hit. ==→eq x.id o.id (ground arith)) (λ x. refl)
              db.orders o y ys (omega (arith, books.sound)) found (ground (arith, ==-same o.id))
              completes.met;
        one_sold = ground (arith, new, hit, completes.product, weigh (sold_of o.product_id));
        delivered = less;
        same_customers = refl;
      }

  live_of-awaiting : live_of o.product_id o ≡ 1
  live_of-awaiting = ground (arith, awaiting, ==-same o.product_id)

  steps-Fulfilled :
      (y : Order) (ys : List Order) (s : Stock) (rows : List Stock)
      → Turned db is_awaiting_payment completed o y ys
      → Commits o.product_id (calm_turn now nextval) (record db { orders = ys }) (s, rows)
      → ((fulfill_payment intent (calm now nextval) (idle db)).0 ≡ ok tt)
        × Fulfilled o.product_id intent o db
            (fulfill_payment intent (calm now nextval) (idle db)).1.shared
  unfolding complete_order
  steps-Fulfilled y ys s rows completes commits =
      let (answer, ends) =
        fulfilled_run y ys s (record db { orders = ys; stock = rows }) (rw completes.met refl)
          (subst
            (λ q.
              commit_stock q (calm_turn now nextval) (record db { orders = ys })
              ≡ (ok s, record db { orders = ys; stock = rows }))
            (sym completes.product) commits.answer) in
      (
        answer,
        subst (Fulfilled o.product_id intent o db) (sym ends)
            (rows-Fulfilled y ys s rows completes commits.less),
      )

  -- A payment for an order that awaits one is always taken, where the product's books are in order:
  -- the order is completed, one more unit counts as sold, and one unit leaves the stock. Here nothing
  -- else happens meanwhile, and the order and its customer are the ones that the intent leads to.
  pub fulfill_payment-completes :
      ((fulfill_payment intent (calm now nextval) (idle db)).0 ≡ ok tt)
      × Fulfilled o.product_id intent o db
          (fulfill_payment intent (calm now nextval) (idle db)).1.shared
  fulfill_payment-completes =
      let row = find-IsRow (has_intent intent) db.orders o found in
      let ((y, ys), completes) =
        guarded-some db is_awaiting_payment completed o books.sound row awaiting in
      let held : 1 ≤ reserved o.product_id db =
        omega (arith, books.matched, row (live_of o.product_id), live_of-awaiting) in
      let ((s, rows), commits) =
        commit_stock-accepted o.product_id (calm_turn now nextval) (record db { orders = ys })
          (omega (arith, books.sound)) held in
      steps-Fulfilled y ys s rows completes commits

  -- The second delivery of the event of a payment is accepted and changes nothing.
  pub fulfill_payment-idempotent :
      (now' nextval' : ℕ)
      → let after = (fulfill_payment intent (calm now nextval) (idle db)).1.shared in
        ((fulfill_payment intent (calm now' nextval') (idle after)).0 ≡ ok tt)
        × ((fulfill_payment intent (calm now' nextval') (idle after)).1.shared ≡ after)
  fulfill_payment-idempotent now' nextval' =
      let after = (fulfill_payment intent (calm now nextval) (idle db)).1.shared in
      let done = fulfill_payment-completes.1 in
      let kept = Post-out (Outside (books_of o.product_id) db) _ _ (
        (fulfill_payment-Outside (calm-RelyOn now nextval) intent).at (idle db)
          (record { kept = Drift-refl books.sound })) in
      let (answer, same) =
        fulfill_payment-classified now' nextval' after intent (with_status completed o) c
          kept.kept.sound done.settled
          (ap (find (λ c. c.id == o.customer_id)) done.same_customers ∙ owner) refl in
      (IsAnswered-completed (with_status completed o) _ refl answer, same)
