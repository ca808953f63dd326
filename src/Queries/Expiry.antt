-- ===== src/Queries/Expiry.antt =====
-- ExpireOrders: the sweeper's UPDATE … WHERE id IN (SELECT … ORDER BY … LIMIT … SKIP LOCKED).
use doorbust.Base.{
  ℕ, Bool, true, false, Option, none, some, List, [], ◌∷◌, not, ◌&&◌, ◌||◌, ltb, leb, ◌==◌,
  if◌then◌else◌, keep, take,
}
use doorbust.Store.{Order, expired, is_live, ok}
use doorbust.Queries.Turns.{Query, Turn}
use doorbust.Queries.OrderRows.{with_status}

abbrev pub is_past : Option ℕ → ℕ → Bool
is_past none now = false
is_past (some e) now = ltb e now

-- The rows of the inner SELECT; SKIP LOCKED passes over those that another transaction holds.
abbrev pub is_due : Turn → Order → Bool
is_due turn o = is_live o.status && is_past o.expires_at turn.now && not (turn.is_locked_order o.id)

-- ORDER BY expires_at.
abbrev pub expires_before : Order → Order → Bool
expires_before a b = elim a.expires_at [
  | none ↦ false
  | some e ↦ elim b.expires_at [ none ↦ true | some d ↦ leb e d ]
]

unfoldable pub insert_by_expiry : Order → List Order → List Order
insert_by_expiry o [] = o ∷ []
insert_by_expiry o (x ∷ xs) = if expires_before o x then o ∷ x ∷ xs else x ∷ insert_by_expiry o xs

unfoldable pub sort_by_expiry : List Order → List Order
unfolding insert_by_expiry
sort_by_expiry [] = []
sort_by_expiry (x ∷ xs) = insert_by_expiry x (sort_by_expiry xs)

unfoldable pub picked_orders : ℕ → Turn → List Order → List Order
unfolding sort_by_expiry
picked_orders limit turn orders = take limit (sort_by_expiry (keep (is_due turn) orders))

abbrev pub id_in : List Order → ℕ → Bool
id_in [] id = false
id_in (x ∷ xs) id = id == x.id || id_in xs id

-- The rows that the UPDATE returns, and the table after it.
unfoldable pub expire_rows : List Order → List Order → List Order × List Order
expire_rows picked [] = ([], [])
expire_rows picked (o ∷ os) =
    let (returned, rows) = expire_rows picked os in
    if id_in picked o.id
    then (with_status expired o ∷ returned, with_status expired o ∷ rows)
    else (returned, o ∷ rows)

unfoldable pub expire_orders : ℕ → Query (List Order)
unfolding expire_rows picked_orders
expire_orders limit turn db =
    let (returned, rows) = expire_rows (picked_orders limit turn db.orders) db.orders in
    (ok returned, record db { orders = rows })
