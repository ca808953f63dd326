-- ===== src/Bench/Seeding/Fresh.antt =====
-- What each product that is seeded adds to tables of which the keys are below the sequence.
use doorbust.Base.{
  ℕ, zero, suc, ◌+◌, ◌<◌, String, Bool, true, ◌==◌, ==-same, ◌≡◌, refl, none, some, List, [], ◌∷◌,
  ◌++◌, find, sum, repeats, repeats-append-one, sum-append, sum-one, find-none, All, All-append,
  All-weaken, Bool-cases, inl, inr, arith,
}
use doorbust.Store.{Db, Product, Stock, ok}
use doorbust.Queries.ProductRows.{create_product, create_stock}
use doorbust.Ledger.{flaw_of}
use doorbust.Session.{World, Env, call, pure, ◌>>=◌}
use doorbust.Session.Calm.{calm_turn}
use doorbust.Queries.Inserted.{find-append-last}
use doorbust.Ledger.ProductEffects.{flaws-kept}
use doorbust.Bench.Seeding.{seed_product, seed_from}

-- Nobody else commits, and the sequence goes on at each call.
abbrev pub counting : ℕ → ℕ → Env
counting now first n = calm_turn now (first + n)

-- The ids of n products, two calls apart.
abbrev pub ids_from : ℕ → ℕ → ℕ → List ℕ
ids_from first at zero = []
ids_from first at (suc n) = (first + at) ∷ ids_from first (at + 1 + 1) n

abbrev pub row_of : ℕ → ℕ → Stock
row_of quantity b = record { product_id = b; quantity = quantity; num_reserved = 0 }

find-kept :
    {A : Type 0} (t : A → Bool) (xs ys : List A) (x : A)
    → find t xs ≡ some x
    → find t (xs ++ ys) ≡ some x
find-kept t [] ys x h = cc
find-kept t (z ∷ zs) ys x h = elim (Bool-cases (t z)) [
  | inl e ↦ rw e (rw e at h)
  | inr e ↦ rw e (find-kept t zs ys x (rw e at h))
]

find-new :
    {A : Type 0} (t : A → Bool) (xs : List A) (x : A)
    → find t xs ≡ none
    → t x ≡ true
    → find t (xs ++ x ∷ []) ≡ some x
find-new t [] x h e = rw e refl
find-new t (z ∷ zs) x h e = elim (Bool-cases (t z)) [
  | inl f ↦ let impossible : some z ≡ none = rw f at h in cc
  | inr f ↦ rw f (find-new t zs x (rw f at h) e)
]

absent :
    {A : Type 0} (k : A → ℕ) (b : ℕ) (xs : List A)
    → All (λ x. k x < b) xs
    → find (λ x. k x == b) xs ≡ none
absent k b [] h = refl
absent k b (x ∷ xs) h = let first = h.0 in ground (arith, absent k b xs h.1)

-- The keys of both tables are below the next number of the sequence; nothing is reserved or ordered.
pub record IsFresh (b : ℕ) (db : Db) : Type 0 where
  pub products : All (λ x. x.id < b) db.products
  pub stock : All (λ s. s.product_id < b) db.stock
  pub distinct : repeats (λ s. s.product_id) db.stock ≡ 0
  pub unsold : db.orders ≡ []
  pub free : All (λ s. s.num_reserved ≡ 0) db.stock
  pub known : sum (flaw_of db.products) db.stock ≡ 0

module _ (now first start_at quantity : ℕ) where
  abbrev product_of : String → ℕ → Product
  product_of name b = record {
    id = b;
    name = name;
    price_in_cents = 1999;
    created_at = now;
    start_at = start_at;
  }

  abbrev seeded_one : String → ℕ → Db → Db
  seeded_one name b db = record db {
    products = db.products ++ product_of name b ∷ [];
    stock = db.stock ++ row_of quantity b ∷ [];
  }

  abbrev after_one : String → World → World
  after_one name w = record w {
    shared = seeded_one name (first + w.at) w.shared;
    at = w.at + 1 + 1;
  }

  seed_product-adds :
      (name : String) (w : World)
      → IsFresh (first + w.at) w.shared
      → seed_product name start_at quantity (counting now first) w
        ≡ (ok (first + w.at), after_one name w)
  unfolding seed_product call ◌>>=◌ pure create_product create_stock
  seed_product-adds name w below =
      let b = first + w.at in
      let no_product = absent (λ (x : Product). x.id) b w.shared.products below.products in
      let no_stock = absent (λ (s : Stock). s.product_id) b w.shared.stock below.stock in
      let there =
        find-append-last (λ (x : Product). x.id == b) w.shared.products (product_of name b)
          (==-same b) in
      rw no_product (rw no_stock (rw there refl))

  abbrev pub all_of : (ℕ → String) → ℕ → ℕ → ℕ → Db → Db
  all_of name i at zero db = db
  all_of name i at (suc n) db =
      all_of name (suc i) (at + 1 + 1) n (seeded_one (name i) (first + at) db)

  one-IsFresh :
      (name : String) (at : ℕ) (db : Db)
      → IsFresh (first + at) db
      → IsFresh (first + (at + 1 + 1)) (seeded_one name (first + at) db)
  one-IsFresh name at db f = record {
    products =
        All-append (λ x. x.id < first + (at + 1 + 1)) db.products
          (product_of name (first + at) ∷ [])
          (All-weaken db.products (λ x h. omega (arith, h)) f.products) (omega arith, tt);
    stock =
        All-append (λ s. s.product_id < first + (at + 1 + 1)) db.stock
          (row_of quantity (first + at) ∷ [])
          (All-weaken db.stock (λ s h. omega (arith, h)) f.stock) (omega arith, tt);
    distinct =
        let none_yet = absent (λ (s : Stock). s.product_id) (first + at) db.stock f.stock in
        omega (
          arith,
          f.distinct,
          repeats-append-one (λ (s : Stock). s.product_id) db.stock (row_of quantity (first + at)),
          find-none (λ (s : Stock). s.product_id) (first + at) db.stock none_yet,
        );
    unsold = f.unsold;
    free =
        All-append (λ s. s.num_reserved ≡ 0) db.stock (row_of quantity (first + at) ∷ []) f.free
          (refl, tt);
    known =
        let p = product_of name (first + at) in
        let there =
          find-append-last (λ (x : Product). x.id == first + at) db.products p
            (==-same (first + at)) in
        let row : flaw_of (db.products ++ p ∷ []) (row_of quantity (first + at)) ≡ 0 =
          rw there (omega arith) in
        omega (
          arith,
          row,
          flaws-kept db.products p db.stock f.known,
          sum-append (flaw_of (db.products ++ p ∷ [])) db.stock (row_of quantity (first + at) ∷ []),
          sum-one (flaw_of (db.products ++ p ∷ [])) (row_of quantity (first + at)),
        );
  }

  pub seed_from-adds :
      (name : ℕ → String) (i n : ℕ) (w : World)
      → IsFresh (first + w.at) w.shared
      → ((seed_from name start_at quantity i n (counting now first) w).0
          ≡ ok (ids_from first w.at n))
        × ((seed_from name start_at quantity i n (counting now first) w).1.shared
            ≡ all_of name i w.at n w.shared)
  unfolding seed_from ◌>>=◌ pure
  seed_from-adds name i zero w f = (refl, refl)
  seed_from-adds name i (suc n) w f =
      let next =
        seed_from-adds name (suc i) n (after_one (name i) w)
          (one-IsFresh (name i) w.at w.shared f) in
      rw (seed_product-adds (name i) w f) (rw next.0 (refl, next.1))

  pub all-IsFresh :
      (name : ℕ → String) (i at n : ℕ) (db : Db)
      → IsFresh (first + at) db
      → (b : ℕ) × IsFresh b (all_of name i at n db)
  all-IsFresh name i at zero db f = (first + at, f)
  all-IsFresh name i at (suc n) db f =
      all-IsFresh name (suc i) (at + 1 + 1) n (seeded_one (name i) (first + at) db)
        (one-IsFresh (name i) at db f)

  all-kept :
      (name : ℕ → String) (i at n : ℕ) (db : Db) (id : ℕ) (s : Stock)
      → find (λ s. s.product_id == id) db.stock ≡ some s
      → find (λ s. s.product_id == id) (all_of name i at n db).stock ≡ some s
  all-kept name i at zero db id s h = h
  all-kept name i at (suc n) db id s h =
      all-kept name (suc i) (at + 1 + 1) n (seeded_one (name i) (first + at) db) id s
        (find-kept (λ s. s.product_id == id) db.stock (row_of quantity (first + at) ∷ []) s h)

  pub all-rows :
      (name : ℕ → String) (i at n : ℕ) (db : Db)
      → IsFresh (first + at) db
      → All
          (λ id.
            find (λ s. s.product_id == id) (all_of name i at n db).stock
            ≡ some (row_of quantity id))
          (ids_from first at n)
  all-rows name i at zero db f = tt
  all-rows name i at (suc n) db f =
      let b = first + at in
      let none_yet = absent (λ (s : Stock). s.product_id) b db.stock f.stock in
      let new =
        find-new (λ (s : Stock). s.product_id == b) db.stock (row_of quantity b) none_yet
          (==-same b) in
      (
        all-kept name (suc i) (at + 1 + 1) n (seeded_one (name i) b db) b (row_of quantity b) new,
        all-rows name (suc i) (at + 1 + 1) n (seeded_one (name i) b db)
            (one-IsFresh (name i) at db f),
      )
