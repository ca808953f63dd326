-- ===== src/Orders/Transitions.antt =====
-- A guarded UPDATE of one order's status, seen from a row of the table.
use doorbust.Base.{
  ℕ, ◌==◌, ◌&&◌, Bool, true, false, ◌≡◌, ◌∙◌, ap, none, some, List, update_first, Option-cases,
  same_row, update_first-hit, update_first-Replaces, IsRow, ==→eq, ==-same, arith, inl, inr,
  if◌then◌else◌,
}
use doorbust.Store.{Db, Order, Status}
use doorbust.Queries.OrderRows.{with_status}
use doorbust.Ledger.{flaws}

-- WHERE id = … AND status = …
abbrev pub guarded_row : (Status → Bool) → ℕ → Order → Bool
guarded_row guard id o = o.id == id && guard o.status

abbrev guarded_count : (Status → Bool) → ℕ → Order → ℕ
guarded_count guard id o = if guarded_row guard id o then 1 else 0

module _ (db : Db) (guard : Status → Bool) (s : Status) (o : Order) where
  -- The UPDATE has met the order: the new row, and the table around it.
  pub record Turned (y : Order) (ys : List Order) : Type 0 where
    pub met : update_first (guarded_row guard o.id) (with_status s) db.orders ≡ some (y, ys)
    pub product : y.product_id ≡ o.product_id

  module _ (sound : flaws db ≡ 0) (row : IsRow db.orders o) where
    pub guarded-none :
        guard o.status ≡ false
        → update_first (guarded_row guard o.id) (with_status s) db.orders ≡ none
    guarded-none other =
        elim (Option-cases (update_first (guarded_row guard o.id) (with_status s) db.orders)) [
          | inl none' ↦ none'
          | inr ((y, ys), e) ↦
              let (x, hit, new, weigh, member) = update_first-Replaces _ _ db.orders y ys e in
              absurd (
                ground (
                  arith,
                  same_row (λ z. z.id) db.orders (omega (arith, sound)) (λ z. guard z.status) x o
                      member row (ground arith),
                ))
        ]

    same_product : (x : Order) → IsRow db.orders x → x.id ≡ o.id → x.product_id ≡ o.product_id
    same_product x member same = ==→eq x.product_id o.product_id (
        same_row (λ z. z.id) db.orders (omega (arith, sound)) (λ z. z.product_id == o.product_id) x
          o member row same
        ∙ ==-same o.product_id)

    turned :
        (r : Order × List Order)
        → update_first (guarded_row guard o.id) (with_status s) db.orders ≡ some r
        → Turned r.0 r.1
    turned r e =
        let (x, hit, new, weigh, member) =
          update_first-Replaces (guarded_row guard o.id) (with_status s) db.orders r.0 r.1 e in
        record {
          met = e;
          product = ap (λ (z : Order). z.product_id) new ∙ same_product x member (ground arith);
        }

    pub guarded-some : guard o.status ≡ true → (r : Order × List Order) × Turned r.0 r.1
    guarded-some fits =
        let (r, e) =
          update_first-hit (guarded_row guard o.id) (with_status s) (guarded_count guard o.id)
            db.orders (λ x miss. ground arith)
            (ground (arith, row (guarded_count guard o.id), ==-same o.id)) in
        (r, turned r e)
