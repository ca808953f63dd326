-- ===== src/Products/Creation.antt =====
-- A sale that a vendor adds is there with all its units free, or not at all.
use doorbust.Base.{
  ℕ, ◌+◌, ◌==◌, ◌≡◌, refl, Bool, true, ◌∷◌, [], ◌++◌, none, find, sum, sum-append, arith, ==-same,
  Bool-cases, inl, inr, List,
}
use doorbust.Store.{Db, Stock, ok, err, Error}
use doorbust.Queries.OrderRows.{is_found}
use doorbust.Queries.ProductRows.{
  stocked, new_product, create_product as insert_product, create_stock,
  CreateProductParams as InsertParams,
}
use doorbust.Session.{World, Env, call, commit, in_transaction, ◌>>=◌, pure}
use doorbust.Session.Rules.{Holds-bind, Holds-return}
use doorbust.Session.Calm.{calm, calm_turn, idle}
use doorbust.Session.Atomic.{
  IsAlone, Untouched-call, Untouched-commit, Untouched-in_transaction, failed-Untouched,
}
use doorbust.Products.{CreateProductParams, create_product}
use doorbust.Ledger.{quantity, quantity_of, reserved, reserved_of}

-- Where it ends in an error, neither the product nor its stock has been committed: nobody else
-- commits meanwhile, and every answer arrives.
pub create_product-all_or_nothing :
    (env : Env)
    → IsAlone env
    → (w : World) (params : CreateProductParams) (e : Error)
    → (create_product params env w).0 ≡ err e
    → (create_product params env w).1.shared ≡ w.shared
unfolding create_product
create_product-all_or_nothing env alone w params = failed-Untouched _ w (
    Untouched-in_transaction alone _ (
      Holds-bind _ _ _ (Untouched-call alone _) λ product.
        Holds-bind _ _ _ (Untouched-call alone _)
          λ stock. Holds-bind _ _ _ (Untouched-commit alone) λ _. Holds-return _ (λ _ _. tt)))

abbrev pub row_params : CreateProductParams → InsertParams
row_params params = record {
  name = params.name;
  price_in_cents = params.price_in_cents;
  start_at = params.start_at;
}

abbrev pub created : CreateProductParams → ℕ → ℕ → Db → Db
created params now nextval db = record db {
  products = db.products ++ new_product (row_params params) (calm_turn now nextval) ∷ [];
  stock =
      db.stock
      ++ record { product_id = nextval; quantity = params.quantity; num_reserved = 0 } ∷ [];
}

-- A row that has been appended is found.
is_found-append :
    {A : Type 0} (t : A → Bool) (xs : List A) (x : A)
    → t x ≡ true
    → is_found (find t (xs ++ x ∷ [])) ≡ true
is_found-append t [] x h = rw h refl
is_found-append t (y ∷ ys) x h = elim (Bool-cases (t y)) [
  | inl e ↦ rw e refl
  | inr e ↦ rw e (is_found-append t ys x h)
]

module _ (params : CreateProductParams) (now nextval : ℕ) (db : Db)
    (fresh : find (λ x. x.id == nextval) db.products ≡ none)
    (unstocked : find (λ s. s.product_id == nextval) db.stock ≡ none) where
  -- A sale that is added has all its units free: the answer says so, and the units of the new product
  -- are those of the request, none of them reserved. Here the next id is unused, and nothing else
  -- happens meanwhile.
  pub create_product-created :
      ((create_product params (calm now nextval) (idle db)).0
        ≡ ok (
            stocked
              (new_product (row_params params) (calm_turn now nextval))
              (record { product_id = nextval; quantity = params.quantity; num_reserved = 0 })))
      × ((create_product params (calm now nextval) (idle db)).1.shared
          ≡ created params now nextval db)
      × (quantity nextval (created params now nextval db) ≡ quantity nextval db + params.quantity)
      × (reserved nextval (created params now nextval db) ≡ reserved nextval db)
  unfolding create_product insert_product create_stock in_transaction call commit ◌>>=◌ pure sum
  create_product-created =
      let there =
        is_found-append (λ x. x.id == nextval) db.products
          (new_product (row_params params) (calm_turn now nextval)) (==-same nextval) in
      let row : Stock = record {
        product_id = nextval;
        quantity = params.quantity;
        num_reserved = 0;
      } in
      (
        rw fresh (rw unstocked (rw there refl)),
        rw fresh (rw unstocked (rw there refl)),
        ground (arith, sum-append (quantity_of nextval) db.stock (row ∷ []), ==-same nextval),
        ground (arith, sum-append (reserved_of nextval) db.stock (row ∷ []), ==-same nextval),
      )
