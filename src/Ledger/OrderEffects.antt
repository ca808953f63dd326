-- ===== src/Ledger/OrderEffects.antt =====
-- What the statements on `orders` do to the accounts of a product.
use doorbust.Base.{
  ◌==◌, Option-cases, inl, inr, String, [], ◌∷◌, ◌++◌, ℕ, ◌+◌, ◌≡◌, refl, Bool, true, Option, none,
  some, List, inl, inr, Bool-cases, ltb, sum, sum-append, sum-one, repeats-update_first,
  repeats-append-one, find-none, find, arith, update_first, update_first-Replaces, ap,
}
use doorbust.Store.{Db, Order}
use doorbust.Queries.Turns.{Turn}
use doorbust.Queries.OrderRows.{
  cancel_pending_order, fail_order, complete_order, mark_order_awaiting_payment, create_order,
  returning_order, returning_unique_intent, CreateOrderParams, MarkOrderAwaitingPaymentParams,
  new_order, intent_count,
}
use doorbust.Ledger.{Account, Drift, live_of, sold_of, flaws, unit}
use doorbust.Ledger.Effects.{Effect, Moves}

-- What an UPDATE of `orders` does to a row: `y` units are no longer held, `v` are sold.
pub record Reassigns (p : Account) (t : Order → Bool) (f : Order → Order) (y v : Order → ℕ)
    : Type 0 where
  pub same : (o : Order) → (f o).id ≡ o.id
  pub frees : (o : Order) → t o ≡ true → live_of p.product o ≡ live_of p.product (f o) + y (f o)
  pub sells : (o : Order) → t o ≡ true → sold_of p.product (f o) ≡ sold_of p.product o + v (f o)

module _ (p : Account) {t : Order → Bool} {f : Order → Order} {y v : Order → ℕ}
    (row : Reassigns p t f y v) where
  updated_order :
      (db : Db) (o : Order) (rows : List Order)
      → flaws db ≡ 0
      → update_first t f db.orders ≡ some (o, rows)
      → Drift p db (record db { orders = rows }) 0 (y o) 0 (v o)
  updated_order db o rows sound e =
      let (old, hit, new, weigh, member) = update_first-Replaces t f db.orders o rows e in
      record {
        balance = omega (
          arith,
          weigh (live_of p.product),
          row.frees old hit,
          ap (live_of p.product) new,
          ap y new,
        );
        supply = omega (
          arith,
          weigh (sold_of p.product),
          row.sells old hit,
          ap (sold_of p.product) new,
          ap v new,
        );
        listed = refl;
        sound = omega (arith, repeats-update_first t f (λ r. r.id) row.same db.orders o rows e);
      }

  returned_order :
      (db : Db) (r : Option (Order × List Order))
      → flaws db ≡ 0
      → update_first t f db.orders ≡ r
      → Effect p db (λ _. 0) y (λ _. 0) v (returning_order db r)
  returned_order db none sound e = refl
  returned_order db (some (o, rows)) sound e = updated_order db o rows sound e

  returned_unique_intent :
      (intent : String) (db : Db) (r : Option (Order × List Order))
      → flaws db ≡ 0
      → update_first t f db.orders ≡ r
      → Effect p db (λ _. 0) y (λ _. 0) v (returning_unique_intent intent db r)
  unfolding returning_unique_intent
  returned_unique_intent intent db none sound e = refl
  returned_unique_intent intent db (some (o, rows)) sound e =
      elim (Bool-cases (ltb 1 (sum (intent_count intent) rows))) [
        | inl twice ↦ rw twice refl
        | inr once ↦ rw once (updated_order db o rows sound e)
      ]

-- The units that an order holds, on the account of `p`.
abbrev pub of_order : Account → Order → ℕ
of_order p o = unit p o.product_id

module _ (p : Account) (turn : Turn) (db : Db) (sound : flaws db ≡ 0) where
  -- Adding the row of an INSERT whose id is new.
  pub inserted_order :
      (m : CreateOrderParams)
      → find (λ o. o.id == turn.nextval) db.orders ≡ none
      → Drift p db
          (record db { orders = db.orders ++ new_order m turn ∷ [] })
          (unit p m.product_id)
          0
          0
          0
  inserted_order m fresh = record {
    balance = ground (
      arith,
      sum-append (live_of p.product) db.orders (new_order m turn ∷ []),
      sum-one (live_of p.product) (new_order m turn),
    );
    supply = ground (
      arith,
      sum-append (sold_of p.product) db.orders (new_order m turn ∷ []),
      sum-one (sold_of p.product) (new_order m turn),
    );
    listed = refl;
    sound = omega (
      arith,
      repeats-append-one (λ o. o.id) db.orders (new_order m turn),
      find-none (λ o. o.id) turn.nextval db.orders fresh,
    );
  }

  created :
      (m : CreateOrderParams)
      → Effect p db (λ _. unit p m.product_id) (λ _. 0) (λ _. 0) (λ _. 0) (create_order m turn db)
  unfolding create_order
  created m = elim (Option-cases (find (λ o. o.id == turn.nextval) db.orders)) [
    | inl fresh ↦ rw fresh (ground (arith, inserted_order m fresh))
    | inr (o, taken) ↦ rw taken refl
  ]

module _ (p : Account) where
  pub cancel_pending_order-Moves :
      (id : ℕ) → Moves p (cancel_pending_order id) (λ _. 0) (of_order p) (λ _. 0) (λ _. 0)
  unfolding cancel_pending_order
  cancel_pending_order-Moves id = record {
    on = λ turn db sound.
        returned_order p
          (record { same = λ o. refl; frees = λ o h. ground arith; sells = λ o h. ground arith }) db
          _ sound refl;
  }

  pub fail_order-Moves : (id : ℕ) → Moves p (fail_order id) (λ _. 0) (of_order p) (λ _. 0) (λ _. 0)
  unfolding fail_order
  fail_order-Moves id = record {
    on = λ turn db sound.
        returned_order p
          (record { same = λ o. refl; frees = λ o h. ground arith; sells = λ o h. ground arith }) db
          _ sound refl;
  }

  pub complete_order-Moves :
      (id : ℕ) → Moves p (complete_order id) (λ _. 0) (of_order p) (λ _. 0) (of_order p)
  unfolding complete_order
  complete_order-Moves id = record {
    on = λ turn db sound.
        returned_order p
          (record { same = λ o. refl; frees = λ o h. ground arith; sells = λ o h. ground arith }) db
          _ sound refl;
  }

  pub mark_order_awaiting_payment-Moves :
      (m : MarkOrderAwaitingPaymentParams)
      → Moves p (mark_order_awaiting_payment m) (λ _. 0) (λ _. 0) (λ _. 0) (λ _. 0)
  unfolding mark_order_awaiting_payment
  mark_order_awaiting_payment-Moves m = record {
    on = λ turn db sound.
        returned_unique_intent p
          (record { same = λ o. refl; frees = λ o h. ground arith; sells = λ o h. ground arith })
          m.stripe_payment_intent_id db _ sound refl;
  }

  pub create_order-Moves :
      (m : CreateOrderParams)
      → Moves p (create_order m) (λ _. unit p m.product_id) (λ _. 0) (λ _. 0) (λ _. 0)
  create_order-Moves m = record { on = λ turn db sound. created p turn db sound m }
