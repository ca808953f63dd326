-- ===== src/Queries/StockRows.antt =====
-- The statements on `stock`: ReserveStock, CommitStock, ReleaseStock.
use doorbust.Base.{
  ℕ, ◌+◌, ◌-◌, Bool, Option, none, some, List, ◌&&◌, ltb, leb, ◌==◌, if◌then◌else◌, update_first,
}
use doorbust.Store.{Db, Stock, Result, ok, err, no_rows, check_violation}
use doorbust.Queries.Turns.{Query}

-- The answer of a guarded UPDATE. The table has CHECK (num_reserved <= quantity).
abbrev pub returning_stock : Db → Option (Stock × List Stock) → Result Stock × Db
returning_stock db none = (err no_rows, db)
returning_stock db (some (s, rows)) =
    if leb s.num_reserved s.quantity
    then (ok s, record db { stock = rows })
    else (err check_violation, db)

abbrev pub has_unit : ℕ → Stock → Bool
has_unit product_id s = s.product_id == product_id && ltb 0 (s.quantity - s.num_reserved)

abbrev pub has_reservation : ℕ → Stock → Bool
has_reservation product_id s = s.product_id == product_id && ltb 0 s.num_reserved

abbrev pub reserve_one : Stock → Stock
reserve_one s = record s { num_reserved = s.num_reserved + 1 }

abbrev pub commit_one : Stock → Stock
commit_one s = record s { quantity = s.quantity - 1; num_reserved = s.num_reserved - 1 }

abbrev pub release_one : Stock → Stock
release_one s = record s { num_reserved = s.num_reserved - 1 }

unfoldable pub reserve_stock : ℕ → Query Stock
reserve_stock product_id turn db =
    returning_stock db (update_first (has_unit product_id) reserve_one db.stock)

unfoldable pub commit_stock : ℕ → Query Stock
commit_stock product_id turn db =
    returning_stock db (update_first (has_reservation product_id) commit_one db.stock)

unfoldable pub release_stock : ℕ → Query Stock
release_stock product_id turn db =
    returning_stock db (update_first (has_reservation product_id) release_one db.stock)
