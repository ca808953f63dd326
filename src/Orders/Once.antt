-- ===== src/Orders/Once.antt =====
-- A request and its retry with the same idempotency key reserve one unit between them.
use text.Mathlib.TextPositions.{eq_refl}
use doorbust.Base.{
  ℕ, ◌+◌, ◌==◌, sum, sum-append, sum-one, update_first-Replaces, String, Bool, true, false, ◌||◌,
  ◌≡◌, refl, none, some, List, [], ◌∷◌, ◌++◌, str_eq, find, update_first, Bool-cases, inl, inr,
  arith, ==-same, ◌∙◌,
}
use doorbust.Store.{Db, Order, Stock, Product, Customer, OrderIdempotency, Result, ok}
use doorbust.Queries.StockRows.{has_unit, reserve_one}
use doorbust.Queries.OrderRows.{new_order}
use doorbust.Queries.KeyRows.{
  has_key, is_unfinished, new_key, claim_idempotency_key, complete_idempotency_key,
}
use doorbust.Session.{World, call, pure, attempt, ◌>>=◌}
use doorbust.Session.Calm.{calm, calm_turn, idle}
use doorbust.Orders.Strategies.{ReserveParams, Strategy, strategy_by_name}
use doorbust.Orders.Idempotency.{
  idempotent_reserve, after_claim, reserve_and_record, record_outcome,
}
use doorbust.Ledger.{reserved, reserved_of, quantity, quantity_of, live, live_of}
use doorbust.Orders.Arms.{known, placed, order_params, Answers, strategy_by_name-placed}
use doorbust.Orders.Replay.{idempotent_reserve-replay, replayed}

module _ {A : Type 0} (t : A → Bool) where
  find-append :
      (xs : List A) (x : A) → find t xs ≡ none → t x ≡ true → find t (xs ++ x ∷ []) ≡ some x
  find-append [] x h hit = rw hit refl
  find-append (y ∷ ys) x h hit = elim (Bool-cases (t y)) [
    | inl e ↦ ground arith
    | inr e ↦ rw e (find-append ys x (ground arith) hit)
  ]

  -- An UPDATE of a row that only the last one can be.
  update_first-append :
      (u : A → Bool) (f : A → A) (xs : List A) (x : A)
      → ((y : A) → u y ≡ true → t y ≡ true)
      → find t xs ≡ none
      → u x ≡ true
      → update_first u f (xs ++ x ∷ []) ≡ some (f x, xs ++ f x ∷ [])
  unfolding update_first
  update_first-append u f [] x only h hit = rw hit refl
  update_first-append u f (y ∷ ys) x only h hit = elim (Bool-cases (t y)) [
    | inl e ↦ ground arith
    | inr e ↦ elim (Bool-cases (u y)) [
      | inl e' ↦ ground (arith, only y e')
      | inr e' ↦ rw e' (rw (update_first-append u f ys x only (ground arith) hit) refl)
    ]
  ]

str_eq-same : (s : String) → str_eq s s ≡ true
str_eq-same s = eq_refl s

-- The row of a key that has led to an order.
abbrev pub finished : ReserveParams → String → ℕ → ℕ → OrderIdempotency
finished p hash now order_id = record {
  cognito_sub = p.claims.subject;
  idem_key = p.idempotency_key;
  request_hash = hash;
  order_id = some order_id;
  created_at = now;
}

-- One unit reserved, one order, and the key's row.
abbrev pub placed_once : ReserveParams → ℕ → String → ℕ → ℕ → Db → Product → List Stock → Db
placed_once p customer_id hash now nextval db x rows = record db {
  stock = rows;
  orders = db.orders ++ new_order (order_params p customer_id x) (calm_turn now nextval) ∷ [];
  idempotency = db.idempotency ++ finished p hash now nextval ∷ [];
}

-- One unit of the product is reserved, and one live order of the customer's holds it.
pub record IsOne (id customer_id : ℕ) (order : Order) (before after : Db) : Type 0 where
  pub reserved_one : reserved id after ≡ reserved id before + 1
  pub none_gone : quantity id after ≡ quantity id before
  pub live_one : live id after ≡ live id before + 1
  pub ordered : after.orders ≡ before.orders ++ order ∷ []
  pub asked : order.product_id ≡ id
  pub owned : order.customer_id ≡ customer_id

module _ (request_hash : ℕ → String) (p : ReserveParams) (c : Customer) (now nextval : ℕ) (db : Db)
    (owner : find (λ z. z.id == c.id) db.customers ≡ some c)
    (fresh : find (λ o. o.id == nextval) db.orders ≡ none) (x : Product) (s : Stock)
    (found : find (λ z. z.id == p.product_id) db.products ≡ some x)
    (stock : find (λ z. z.product_id == x.id) db.stock ≡ some s) (y : Stock) (rows : List Stock)
    (free : update_first (has_unit p.product_id) reserve_one db.stock ≡ some (y, rows))
    (name : String) (arm : Strategy) (named : strategy_by_name name (known c.id) ≡ some arm)
    (keyed : (str_eq p.idempotency_key "" || str_eq p.claims.subject "") ≡ false)
    (unused : find (has_key p.claims.subject p.idempotency_key) db.idempotency ≡ none) where
  abbrev hash : String
  hash = request_hash p.product_id

  abbrev claimed_db : Db
  claimed_db = record db {
    idempotency =
        db.idempotency
        ++ new_key p.claims.subject p.idempotency_key hash (calm_turn now nextval) ∷ [];
  }

  first_arm :
      (w : World)
      → w.shared ≡ claimed_db
      → Answers now nextval w
          (arm p)
          (placed p c.id (calm_turn now nextval) claimed_db x (some (y, rows)))
  first_arm w same = rw free at (
      strategy_by_name-placed p c now nextval claimed_db owner fresh x s found stock w same name arm
        named)

  abbrev key_row : OrderIdempotency
  key_row = new_key p.claims.subject p.idempotency_key hash (calm_turn now nextval)

  abbrev reserved_db : Db
  reserved_db = record claimed_db {
    stock = rows;
    orders = db.orders ++ new_order (order_params p c.id x) (calm_turn now nextval) ∷ [];
  }

  key_row-found : has_key p.claims.subject p.idempotency_key key_row ≡ true
  key_row-found = rw (str_eq-same p.claims.subject) (str_eq-same p.idempotency_key)

  key_row-unfinished : is_unfinished p.claims.subject p.idempotency_key key_row ≡ true
  key_row-unfinished = rw (str_eq-same p.claims.subject) (rw (str_eq-same p.idempotency_key) refl)

  recorded_run :
      (r : Result Order) (w : World)
      → r ≡ ok (new_order (order_params p c.id x) (calm_turn now nextval))
      → w.shared ≡ reserved_db
      → Answers now nextval w (record_outcome key_row r) (
        ok (new_order (order_params p c.id x) (calm_turn now nextval)),
        placed_once p c.id hash now nextval db x rows,
      )
  unfolding record_outcome complete_idempotency_key call ◌>>=◌ attempt pure
  recorded_run r w answer same =
      let complete =
        update_first-append (has_key p.claims.subject p.idempotency_key)
          (is_unfinished p.claims.subject p.idempotency_key)
          (λ k. record k { order_id = some nextval }) db.idempotency key_row (λ k h. ground arith)
          unused key_row-unfinished in
      rw answer (rw same (rw complete (refl, refl)))

  first_run : Answers now nextval (idle db) (idempotent_reserve request_hash arm p) (
    ok (new_order (order_params p c.id x) (calm_turn now nextval)),
    placed_once p c.id hash now nextval db x rows,
  )
  unfolding idempotent_reserve after_claim reserve_and_record claim_idempotency_key call ◌>>=◌
      attempt
  first_run =
      let w : World = record {
        shared = claimed_db;
        view = db;
        aborted = false;
        at = 1;
        ids = λ _. none;
      } in
      let (answer, ends) = first_arm w refl in
      rw keyed (
        rw unused
          (recorded_run (arm p (calm now nextval) w).0 (arm p (calm now nextval) w).1 answer ends))

  second_key :
      find
        (has_key p.claims.subject p.idempotency_key)
        (placed_once p c.id hash now nextval db x rows).idempotency
      ≡ some (finished p hash now nextval)
  second_key =
      find-append (has_key p.claims.subject p.idempotency_key) db.idempotency
        (finished p hash now nextval) unused key_row-found

  second_answer :
      replayed (placed_once p c.id hash now nextval db x rows) hash (finished p hash now nextval)
      ≡ ok (new_order (order_params p c.id x) (calm_turn now nextval))
  second_answer = rw (str_eq-same hash) (
      rw
        (find-append (λ o. o.id == nextval) db.orders
          (new_order (order_params p c.id x) (calm_turn now nextval)) fresh (==-same nextval))
        refl)

  placed_once-IsOne :
      IsOne p.product_id c.id
        (new_order (order_params p c.id x) (calm_turn now nextval))
        db
        (placed_once p c.id hash now nextval db x rows)
  unfolding sum
  placed_once-IsOne =
      let o = new_order (order_params p c.id x) (calm_turn now nextval) in
      let (old, hit, new, weigh, member) =
        update_first-Replaces (has_unit p.product_id) reserve_one db.stock y rows free in
      record {
        reserved_one = ground (arith, new, hit, weigh (reserved_of p.product_id));
        none_gone = ground (arith, new, hit, weigh (quantity_of p.product_id));
        live_one =
            let one : live_of p.product_id o ≡ 1 = rw (==-same p.product_id) refl in
            omega (
              arith,
              one,
              sum-append (live_of p.product_id) db.orders (o ∷ []),
              sum-one (live_of p.product_id) o,
            );
        ordered = refl;
        asked = refl;
        owned = refl;
      }

  -- Where the first request with a key succeeds, with one unit reserved and one order of the caller
  -- for the product that was asked for, the same request again reserves none: it answers with the same
  -- order and changes nothing, whichever arm reserves, and at any later time. Here the caller is a known
  -- customer with a subject, the key is new to the caller, the product is there with a unit free, the
  -- next id is unused, no call fails, a COMMIT's least of all, and nothing else happens meanwhile.
  pub idempotent_reserve-once :
      (now' nextval' : ℕ)
      → let order = new_order (order_params p c.id x) (calm_turn now nextval) in
        let after = placed_once p c.id (request_hash p.product_id) now nextval db x rows in
        Answers now nextval (idle db) (idempotent_reserve request_hash arm p) (ok order, after)
        × IsOne p.product_id c.id order db after
        × Answers now' nextval'
            (idle after)
            (idempotent_reserve request_hash arm p)
            (ok order, after)
  idempotent_reserve-once now' nextval' =
      let after = placed_once p c.id hash now nextval db x rows in
      let (answer, ends) =
        idempotent_reserve-replay request_hash arm p now' nextval' after
          (finished p hash now nextval) keyed second_key in
      (first_run, placed_once-IsOne, (answer ∙ second_answer, ends))
