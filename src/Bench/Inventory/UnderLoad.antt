-- ===== src/Bench/Inventory/UnderLoad.antt =====
-- The program under load, and the checks of the benchmark when it has stopped.
use doorbust.Base.{refl, ◌∙◌, ℕ, ◌+◌, ◌≤◌, ◌≡◌, true, some, List, [], ◌∷◌, length, All, arith}
use doorbust.Store.{Db, ok}
use doorbust.Session.{World, Env}
use doorbust.Session.Calm.{calm}
use doorbust.Orders.Strategies.{Strategy}
use doorbust.Program.{Config, Request, boot, history}
use doorbust.Program.NoOversell.{Drift-StaysSound, history-Outside}
use doorbust.Ledger.{books_of, watching, rows, watched_rows, quantity, sold, IsBalanced, Drift}
use doorbust.Ledger.Actions.{RelyOn, Drift-refl}
use doorbust.Bench.Report.{Invariants}
use doorbust.Bench.Inventory.{check, order_count_fits}
use doorbust.Bench.Inventory.Sound.{IsInOrder, one_row-found, IsBalanced-IsInOrder, check-passed}

-- Before the load: the product has one row of stock, its books are in order, and there are `initial` units
-- of it at most, sold ones included.
pub record IsSeeded (initial : ℕ) (db : Db) (p : ℕ) : Type 0 where
  pub stocked : rows p db ≡ 1
  pub balanced : IsBalanced p db
  pub supply : quantity p db + sold p db ≤ initial

-- The books without the number of the rows.
unwatched :
    {p : ℕ} {a b : Db} {x y u v : ℕ}
    → Drift (watching p) a b x y u v
    → Drift (books_of p) a b x y u v
unfolding watched_rows
unwatched d = record { balance = d.balance; supply = d.supply; listed = refl; sound = d.sound }

module _ (config : Config) (reserve : Strategy) (booted : boot config ≡ some reserve)
    (requests : List (Env × Request)) (w : World) (initial : ℕ) where
  in_order :
      (p : ℕ)
      → All (λ r. RelyOn (watching p) r.0) requests
      → IsSeeded initial w.shared p
      → IsInOrder initial p (history config reserve requests w).shared
  unfolding watched_rows
  in_order p relies seeded =
      let after = (history config reserve requests w).shared in
      let drift =
        (history-Outside (watching p) config reserve w.shared booted requests relies w
          (record { kept = Drift-refl seeded.balanced.sound })).kept in
      let sound = Drift-StaysSound seeded.balanced (unwatched drift) in
      let one : rows p after ≡ 1 = drift.listed ∙ seeded.stocked in
      let (s, found) = one_row-found p after.stock one in
      IsBalanced-IsInOrder p initial after s sound.balanced one found
        (omega (arith, seeded.supply, sound.no_oversell))

  all_in_order :
      (ids : List ℕ)
      → All (λ p. All (λ r. RelyOn (watching p) r.0) requests) ids
      → All (IsSeeded initial w.shared) ids
      → All (λ p. IsInOrder initial p (history config reserve requests w).shared) ids
  all_in_order [] relies seeded = tt
  all_in_order (p ∷ ids) relies seeded =
      (in_order p relies.0 seeded.0, all_in_order ids relies.1 seeded.1)

  -- After any history of requests on a seeded shop the checks of the benchmark pass: each product still
  -- has its one row of stock, and they find no unit oversold, none leaked and none reserved beyond the
  -- stock, provided that the number of orders fits what the client has seen. The other transactions that
  -- commit in between keep the books in order and each product's rows of stock as many as they were, and
  -- the checks run undisturbed.
  pub check-history :
      (ids : List ℕ) (client_reserved client_unknown now nextval : ℕ)
      → All (λ p. All (λ r. RelyOn (watching p) r.0) requests) ids
      → All (IsSeeded initial w.shared) ids
      → order_count_fits client_reserved client_unknown
          (length (history config reserve requests w).shared.orders)
        ≡ true
      → (i : Invariants) × ((check ids initial client_reserved client_unknown
            (calm now nextval)
            (history config reserve requests w)).0
          ≡ ok i)
        × (i.passed ≡ true)
  check-history ids client_reserved client_unknown now nextval relies seeded fits =
      check-passed now nextval initial ids client_reserved client_unknown
        (history config reserve requests w) (all_in_order ids relies seeded) fits
