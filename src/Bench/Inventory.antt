-- ===== src/Bench/Inventory.antt =====
-- bench/internal/verify/invariants.go: what is asked of the database when the load has stopped.
pub mod Sound
pub mod UnderLoad
use doorbust.Base.{
  ℕ, ◌+◌, Bool, true, false, leb, ◌==◌, ◌&&◌, ◌||◌, Option, none, some, List, [], ◌∷◌, ◌++◌, find,
  length, sum, if◌then◌else◌,
}
use doorbust.Store.{Db, Order, Stock, is_live, is_completed, Result, ok, err, no_rows}
use doorbust.Queries.Turns.{Query}
use doorbust.Session.{M, pure, attempt, ◌>>=◌, pool, call}
use doorbust.Bench.Report.{
  CheckName, client_server_order_count, stock_readable, num_reserved_non_negative,
  num_reserved_within_quantity, reserved_matches_live_orders, orders_within_initial_quantity,
  InvariantCheck, Invariants,
}

unfoldable pub count_orders : Query ℕ
count_orders turn db = (ok (length db.orders), db)

abbrev scanned : Db → Option Stock → Result Stock × Db
scanned db none = (err no_rows, db)
scanned db (some s) = (ok s, db)

unfoldable pub select_stock : ℕ → Query Stock
select_stock id turn db = scanned db (find (λ s. s.product_id == id) db.stock)

abbrev pub is_live_of : ℕ → Order → ℕ
is_live_of id o = if o.product_id == id && is_live o.status then 1 else 0

abbrev pub is_kept_of : ℕ → Order → ℕ
is_kept_of id o = if o.product_id == id && (is_live o.status || is_completed o.status) then 1 else 0

unfoldable pub count_live : ℕ → Query ℕ
count_live id turn db = (ok (sum (is_live_of id) db.orders), db)

unfoldable pub count_kept : ℕ → Query ℕ
count_kept id turn db = (ok (sum (is_kept_of id) db.orders), db)

abbrev pub checked : CheckName → Bool → InvariantCheck
checked name holds = record { name = name; holds = holds }

-- Where the client does not know how a request has ended, its order may be there or not.
abbrev pub order_count_fits : ℕ → ℕ → ℕ → Bool
order_count_fits client_reserved client_unknown orders =
    if client_unknown == 0
    then orders == client_reserved
    else leb client_reserved orders && leb orders (client_reserved + client_unknown)

abbrev pub check_orders : ℕ → ℕ → Result ℕ → InvariantCheck
check_orders client_reserved client_unknown (err e) = checked client_server_order_count false
check_orders client_reserved client_unknown (ok orders) =
    checked client_server_order_count (order_count_fits client_reserved client_unknown orders)

abbrev stock_checks : Stock → List InvariantCheck
stock_checks s =
    checked num_reserved_non_negative (leb 0 s.num_reserved)
    ∷ checked num_reserved_within_quantity (leb s.num_reserved s.quantity)
    ∷ []

abbrev check_kept : ℕ → Result ℕ → InvariantCheck
check_kept initial (err e) = checked orders_within_initial_quantity false
check_kept initial (ok sold) = checked orders_within_initial_quantity (leb sold initial)

abbrev pub product_checks : ℕ → Stock → ℕ → Result ℕ → List InvariantCheck
product_checks initial s live sold =
    stock_checks s
    ++ checked reserved_matches_live_orders (s.num_reserved == live) ∷ check_kept initial sold ∷ []

abbrev pub after_live : ℕ → ℕ → Stock → Result ℕ → M (List InvariantCheck)
after_live initial id s (err e) =
    pure (stock_checks s ++ checked reserved_matches_live_orders false ∷ [])
after_live initial id s (ok live) = do
  sold ← attempt (call pool (count_kept id))
  pure (product_checks initial s live sold)

abbrev pub after_stock : ℕ → ℕ → Result Stock → M (List InvariantCheck)
after_stock initial id (err e) = pure (checked (stock_readable id) false ∷ [])
after_stock initial id (ok s) = attempt (call pool (count_live id)) >>= after_live initial id s

unfoldable pub check_product : ℕ → ℕ → M (List InvariantCheck)
check_product initial id = attempt (call pool (select_stock id)) >>= after_stock initial id

unfoldable pub check_products : ℕ → List ℕ → M (List InvariantCheck)
check_products initial [] = pure []
check_products initial (id ∷ ids) = do
  first ← check_product initial id
  rest ← check_products initial ids
  pure (first ++ rest)

abbrev pub all_hold : List InvariantCheck → Bool
all_hold [] = true
all_hold (c ∷ cs) = c.holds && all_hold cs

unfoldable pub check : List ℕ → ℕ → ℕ → ℕ → M Invariants
check product_ids initial client_reserved client_unknown = do
  orders ← attempt (call pool count_orders)
  rest ← check_products initial product_ids
  let checks = check_orders client_reserved client_unknown orders ∷ rest
  pure (record { passed = all_hold checks; checks = checks })
