-- ===== src/Ledger/ReservationEffects.antt =====
-- The statement that does both halves of a reservation leaves the accounts balanced.
use doorbust.Base.{
  ◌≡◌, refl, Option, none, some, List, ◌==◌, ==→eq, inl, inr, Bool-cases, leb, arith, find,
  update_first, ap, find-some, update_first-Replaces, ◌∙◌,
}
use doorbust.Store.{Db, Stock, Order, Product, Result, ok, err}
use doorbust.Queries.Turns.{Turn}
use doorbust.Queries.StockRows.{reserve_stock, returning_stock, has_unit, reserve_one}
use doorbust.Queries.OrderRows.{CreateOrderParams}
use doorbust.Queries.Reservation.{
  reserve_and_create_order, ReserveAndCreateOrderParams, priced_order, after_reserve, insert_priced,
  undo_on_error,
}
use doorbust.Ledger.{Account, Drift, Drift-trans, flaws, flaw_of, missing, unit}
use doorbust.Ledger.Effects.{Effect}
use doorbust.Ledger.StockEffects.{reserve_stock-Moves}
use doorbust.Ledger.OrderEffects.{create_order-Moves}
use doorbust.Ledger.OtherEffects.{Quiet}

module _ (p : Account) (turn : Turn) (m : ReserveAndCreateOrderParams) (db : Db)
    (sound : flaws db ≡ 0) where
  -- Both halves together: the row's unit is the new order's.
  joined :
      (db' : Db) (c : CreateOrderParams)
      → Drift p db db' 0 (unit p m.product_id) 0 0
      → c.product_id ≡ m.product_id
      → (r : Result Order × Db)
      → Effect p db' (λ _. unit p c.product_id) (λ _. 0) (λ _. 0) (λ _. 0) r
      → Effect p db (λ _. 0) (λ _. 0) (λ _. 0) (λ _. 0) (undo_on_error db r)
  unfolding undo_on_error
  joined db' c d same (ok o, db'') e = let both = Drift-trans d (rw same at e) in ground arith
  joined db' c d same (err _, db'') e = refl

  inserted :
      (db' : Db) (s : Stock) (found : Option Product)
      → Drift p db db' 0 (unit p m.product_id) 0 0
      → s.product_id ≡ m.product_id
      → find (λ x. x.id == s.product_id) db'.products ≡ found
      → missing db'.products s.product_id ≡ 0
      → Effect p db (λ _. 0) (λ _. 0) (λ _. 0) (λ _. 0) (insert_priced m turn db db' found)
  unfolding insert_priced
  inserted db' s none d same e present = absurd (ground arith)
  inserted db' s (some x) d same e present =
      joined db' (priced_order m x) d
        (==→eq x.id s.product_id (find-some _ db'.products x e) ∙ same) _
        ((create_order-Moves p _).on turn db' d.sound)

  reserved_row :
      (s : Stock) (rows : List Stock)
      → update_first (has_unit m.product_id) reserve_one db.stock ≡ some (s, rows)
      → (s.product_id ≡ m.product_id) × (missing db.products s.product_id ≡ 0)
  reserved_row s rows e =
      let (old, hit, new, weigh, member) = update_first-Replaces _ _ db.stock s rows e in
      let at_q : old.product_id ≡ m.product_id = ground arith in
      let same = ap (λ r. r.product_id) new in
      (same ∙ at_q, ap (missing db.products) same ∙ omega (arith, member (flaw_of db.products)))

  statement :
      (r : Option (Stock × List Stock))
      → update_first (has_unit m.product_id) reserve_one db.stock ≡ r
      → Effect p db (λ _. 0) (λ _. unit p m.product_id) (λ _. 0) (λ _. 0) (returning_stock db r)
      → Effect p db
          (λ _. 0)
          (λ _. 0)
          (λ _. 0)
          (λ _. 0)
          (after_reserve m turn db (returning_stock db r))
  unfolding after_reserve
  statement none e d = refl
  statement (some (s, rows)) e d = elim (Bool-cases (leb s.num_reserved s.quantity)) [
    | inl fits ↦
        let (at_product, present) = reserved_row s rows e in
        rw fits (inserted (record db { stock = rows }) s _ (rw fits at d) at_product refl present)
    | inr full ↦ rw full refl
  ]

-- One statement reserves and orders, or does neither.
pub reserve_and_create_order-Moves :
    (p : Account) (m : ReserveAndCreateOrderParams) → Quiet p (reserve_and_create_order m)
unfolding reserve_and_create_order
reserve_and_create_order-Moves p m = record {
  on = λ turn db sound.
      statement p turn m db sound _ refl
        (unfold reserve_stock in (reserve_stock-Moves p m.product_id).on turn db sound);
}
