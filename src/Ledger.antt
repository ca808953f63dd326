-- ===== src/Ledger.antt =====
-- The accounts of one product: the units that `stock` counts as reserved and in supply, and the
-- orders that hold or have bought one.
mod Effects
pub mod StockEffects
pub mod OrderEffects
pub mod ExpiryEffects
pub mod OtherEffects
pub mod ProductEffects
pub mod ReservationEffects
pub mod Actions
pub mod Quiet
pub mod Calm
use doorbust.Queries.OrderRows.{is_found}
use doorbust.Base.{
  ℕ, Bool, true, false, has_key, List, find, ◌+◌, ◌-◌, ◌≤◌, ◌≡◌, ◌&&◌, ◌==◌, if◌then◌else◌, sum,
  repeats, arith,
}
use doorbust.Store.{Db, Product, Stock, Order, is_live, is_completed, Result, ok, err}

abbrev pub reserved_of : ℕ → Stock → ℕ
reserved_of p s = if s.product_id == p then s.num_reserved else 0

abbrev pub quantity_of : ℕ → Stock → ℕ
quantity_of p s = if s.product_id == p then s.quantity else 0

-- 1 for a product that is not there.
abbrev pub missing : List Product → ℕ → ℕ
missing products p = if is_found (find (λ x. x.id == p) products) then 0 else 1

-- By how much a row breaks CHECK (num_reserved <= quantity) and REFERENCES products(id).
abbrev pub flaw_of : List Product → Stock → ℕ
flaw_of products s = s.num_reserved - s.quantity + missing products s.product_id

abbrev pub live_of : ℕ → Order → ℕ
live_of p o = if o.product_id == p && is_live o.status then 1 else 0

abbrev pub sold_of : ℕ → Order → ℕ
sold_of p o = if o.product_id == p && is_completed o.status then 1 else 0

abbrev pub reserved : ℕ → Db → ℕ
reserved p db = sum (reserved_of p) db.stock

abbrev pub quantity : ℕ → Db → ℕ
quantity p db = sum (quantity_of p) db.stock

-- PRIMARY KEY (id) on orders is broken as often as two orders share an id.
abbrev pub flaws : Db → ℕ
flaws db = sum (flaw_of db.products) db.stock + repeats (λ o. o.id) db.orders

abbrev pub live : ℕ → Db → ℕ
live p db = sum (live_of p) db.orders

abbrev pub sold : ℕ → Db → ℕ
sold p db = sum (sold_of p) db.orders

-- The account of a product in the books, with the number of its rows of stock where that is watched too.
pub record Account : Type 0 where
  pub product : ℕ
  pub watched : Bool

abbrev pub books_of : ℕ → Account
books_of p = record { product = p; watched = false }

abbrev pub watching : ℕ → Account
watching p = record { product = p; watched = true }

abbrev pub rows : ℕ → Db → ℕ
rows p db = sum (has_key (λ s. s.product_id) p) db.stock

unfoldable pub watched_rows : Account → List Stock → ℕ
watched_rows p xs = if p.watched then sum (has_key (λ s. s.product_id) p.product) xs else 0

-- From `a` to `b`: how far the reservations have moved from the live orders, and the supply from
-- the sales; the rows of stock are as many as before, where they are watched; and `b` meets the
-- constraints of its tables.
pub record Drift (p : Account) (a b : Db) (under over undersold oversold : ℕ) : Type 0 where
  pub balance :
      reserved p.product b + live p.product a + under
      ≡ reserved p.product a + live p.product b + over
  pub supply :
      quantity p.product b + sold p.product b + undersold
      ≡ quantity p.product a + sold p.product a + oversold
  pub listed : watched_rows p b.stock ≡ watched_rows p a.stock
  pub sound : flaws b ≡ 0

-- The books are in order: every reserved unit belongs to a live order and the other way round, and
-- the tables meet their constraints.
pub record IsBalanced (p : ℕ) (db : Db) : Type 0 where
  pub matched : reserved p db ≡ live p db
  pub sound : flaws db ≡ 0

pub Drift-trans :
    {p : Account} {a b c : Db} {x y u v x' y' u' v' : ℕ}
    → Drift p a b x y u v
    → Drift p b c x' y' u' v'
    → Drift p a c (x + x') (y + y') (u + u') (v + v')
Drift-trans d e = omega arith

-- The unit that an order of product `q` moves on the account of `p`.
abbrev pub unit : Account → ℕ → ℕ
unit p q = if q == p.product then 1 else 0
