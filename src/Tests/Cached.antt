-- ===== src/Tests/Cached.antt =====
-- A new buyer is refused for want of stock, and cannot buy when there is stock again.
use doorbust.Base.{ℕ, false, ◌≡◌, refl, some, none, [], ◌∷◌, update_first}
use doorbust.Store.{Db, Stock, err, out_of_stock, foreign_key_violation}
use doorbust.Queries.StockRows.{has_unit, reserve_one}
use doorbust.Session.Calm.{calm, idle}
use doorbust.Auth.{Claims}
use doorbust.Customers.{cached_resolve}
use doorbust.Orders.Strategies.{ReserveParams, txn_reserve}
use doorbust.Orders.Remembered.{cached_resolve-dangling}
use doorbust.Tests.Shop.{shop, chair}

abbrev latecomer : Claims
latecomer = record { subject = "sub-late"; email = "late@example.com"; groups = [] }

abbrev late_ask : ReserveParams
late_ask = record { product_id = 7; claims = latecomer; expires_at = 90; idempotency_key = "" }

abbrev shelf : ℕ → ℕ → Stock
shelf quantity held = record { product_id = 7; quantity = quantity; num_reserved = held }

abbrev sold_out : Db
sold_out = record shop { stock = shelf 1 1 ∷ [] }

abbrev restocked : Db
restocked = record shop { stock = shelf 2 1 ∷ [] }

none_free : update_first (has_unit 7) reserve_one sold_out.stock ≡ none
unfolding update_first
none_free = refl

one_free : update_first (has_unit 7) reserve_one restocked.stock ≡ some (shelf 2 2, shelf 2 2 ∷ [])
unfolding update_first
one_free = refl

cached_resolve-dangling_example :
    let reserve = txn_reserve cached_resolve false late_ask in
    ((reserve (calm 50 21) (idle sold_out)).0 ≡ err out_of_stock)
    × ((reserve
          (calm 70 22)
          (record (reserve (calm 50 21) (idle sold_out)).1 { shared = restocked })).0
        ≡ err foreign_key_violation)
cached_resolve-dangling_example =
    cached_resolve-dangling late_ask 50 21 sold_out chair (shelf 1 1)
      (record { subject = refl; no_sub = refl; no_email = refl; no_id = refl }) refl refl none_free
      restocked 70 22
      (record {
        product = chair;
        stock = shelf 2 1;
        unit = (shelf 2 2, shelf 2 2 ∷ []);
        found = refl;
        stocked = refl;
        free = one_free;
        no_customer = refl;
        fresh = refl;
      })
