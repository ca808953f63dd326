-- ===== src/Bench/Seeding/Seeded.antt =====
-- What the load finds: each product with its whole stock, and nothing else.
use doorbust.Base.{
  ℕ, zero, suc, ◌+◌, ◌-◌, String, ◌==◌, ◌≡◌, refl, some, List, [], ◌∷◌, length, find, sum, repeats,
  All, All-weaken, arith,
}
use doorbust.Store.{Db, Stock, ok}
use doorbust.Ledger.{reserved_of}
use doorbust.Bench.Inventory.Sound.{one_row}
use doorbust.Bench.Inventory.UnderLoad.{IsSeeded}
use doorbust.Session.{World, call, time_now, ◌>>=◌, ◌>>◌}
use doorbust.Bench.Seeding.{truncate, reset, hour, seed_products}
use doorbust.Bench.Seeding.Fresh.{
  counting, ids_from, row_of, IsFresh, all_of, seed_from-adds, all-IsFresh, all-rows,
}

length-ids_from : (first at n : ℕ) → length (ids_from first at n) ≡ n
length-ids_from first at zero = refl
length-ids_from first at (suc n) = omega (arith, length-ids_from first (at + 1 + 1) n)

nothing_reserved :
    (p : ℕ) (xs : List Stock) → All (λ s. s.num_reserved ≡ 0) xs → sum (reserved_of p) xs ≡ 0
unfolding sum
nothing_reserved p [] h = refl
nothing_reserved p (x ∷ xs) h = let first = h.0 in ground (arith, nothing_reserved p xs h.1)

fresh-IsSeeded :
    (b quantity id : ℕ) (db : Db)
    → IsFresh b db
    → find (λ s. s.product_id == id) db.stock ≡ some (row_of quantity id)
    → IsSeeded quantity db id
unfolding sum repeats
fresh-IsSeeded b quantity id db f found =
    let units = one_row (λ s. s.quantity) id db.stock (row_of quantity id) f.distinct found in
    record {
      stocked = one_row (λ s. 1) id db.stock (row_of quantity id) f.distinct found;
      balanced = record {
        matched = rw f.unsold (nothing_reserved id db.stock f.free);
        sound = rw f.unsold (omega (arith, f.known));
      };
      supply = rw f.unsold (omega arith);
    }

-- The product has a row of stock.
abbrev pub HasStock : Db → ℕ → Type 0
HasStock db p = (s : Stock) × (find (λ s. s.product_id == p) db.stock ≡ some s)

-- What seeding has come to.
pub record AreSeeded (skus quantity : ℕ) (ids : List ℕ) (db : Db) : Type 0 where
  pub count : length ids ≡ skus
  pub seeded : All (IsSeeded quantity db) ids
  pub stocked : All (HasStock db) ids
  pub distinct : repeats (λ s. s.product_id) db.stock ≡ 0
  pub unsold : db.orders ≡ []

-- Whatever the database held before, a reset and the seeding leave as many products as the plan has,
-- each with one row of stock, all of it free and none sold, and no orders: the books of each product
-- are in order. Nobody else commits meanwhile, and no call fails.
pub seed_products-AreSeeded :
    (name : ℕ → String) (skus quantity now first : ℕ) (w : World)
    → let run = (reset >> seed_products name skus quantity) (counting now first) w in
      let ids = ids_from first (w.at + 1) skus in
      (run.0 ≡ ok ids) × AreSeeded skus quantity ids run.1.shared
unfolding reset truncate seed_products time_now call ◌>>=◌ repeats sum
seed_products-AreSeeded name skus quantity now first w =
    let nothing : Db = record {
      products = [];
      stock = [];
      customers = [];
      orders = [];
      idempotency = [];
      events = [];
    } in
    let w' : World = record w { shared = nothing; at = w.at + 1 } in
    let fresh : IsFresh (first + w'.at) nothing = record {
      products = tt;
      stock = tt;
      distinct = refl;
      unsold = refl;
      free = tt;
      known = refl;
    } in
    let ids = ids_from first w'.at skus in
    let (answered, left) = seed_from-adds now first (now - hour) quantity name 0 skus w' fresh in
    let db = all_of now first (now - hour) quantity name 0 w'.at skus nothing in
    let (b, f) = all-IsFresh now first (now - hour) quantity name 0 w'.at skus nothing fresh in
    let rows = all-rows now first (now - hour) quantity name 0 w'.at skus nothing fresh in
    (
      answered,
      rw left (record {
        count = length-ids_from first w'.at skus;
        seeded = All-weaken ids (λ id h. fresh-IsSeeded b quantity id db f h) rows;
        stocked = All-weaken ids (λ id h. (row_of quantity id, h)) rows;
        distinct = f.distinct;
        unsold = f.unsold;
      }),
    )
