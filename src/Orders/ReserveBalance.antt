-- ===== src/Orders/ReserveBalance.antt =====
-- Every arm of internal/orders/strategy*.go, and the rest of internal/orders/service.go, leaves
-- every product's books in order.
use doorbust.Base.{◌+◌, ℕ, Bool, true, false, arith}
use doorbust.Store.{Db, Order, Stock, Result, ok, err, no_rows, out_of_stock}
use doorbust.Session.{Env, M, pool, tx}
use doorbust.Session.Rules.{Holds, Post, Holds-pure, Holds-fail, Holds-bind, Holds-weaken_out}
use doorbust.Queries.ProductRows.{StockedProduct}
use doorbust.Customers.{Resolver}
use doorbust.Customers.Balance.{ResolverKeeps}
use doorbust.Orders.Strategies.{
  ReserveParams, or_out_of_stock, reserve, create, reserve_and_create, txn_reserve, after_statement,
  cte_reserve,
}
use doorbust.Ledger.{Account, unit}
use doorbust.Ledger.StockEffects.{reserve_stock-Moves}
use doorbust.Ledger.OrderEffects.{create_order-Moves}
use doorbust.Ledger.OtherEffects.{find_product_by_id-Moves}
use doorbust.Ledger.ReservationEffects.{reserve_and_create_order-Moves}
use doorbust.Ledger.Actions.{
  RelyOn, Inside, Outside, Stepped, Holds-call, Holds-attempt-call, Holds-commit,
  Holds-in_transaction,
}
use doorbust.Ledger.Quiet.{Keeps, Keeps-call, Holds-attempt}
use doorbust.Orders.Balance.{leave}

-- From books in order to books in order.
abbrev pub KeepsOutside : {A : Type 0} → Account → Env → M A → Type 0
KeepsOutside p env m = (base : Db) → Keeps env (Outside p base) m

module _ {env : Env} {p : Account} (rely : RelyOn p env) {base : Db} (params : ReserveParams) where
  or_out_of_stock-Inside :
      (x y u v : ℕ) (r : Result Stock)
      → Holds env
          (Stepped p base (λ _. 0) (λ _. unit p params.product_id) (λ _. 0) (λ _. 0) x y u v r)
          (or_out_of_stock r)
          (λ _. Inside p base (x + 0) (y + unit p params.product_id) (u + 0) (v + 0))
          (Outside p base)
  unfolding or_out_of_stock
  or_out_of_stock-Inside x y u v (ok s) = Holds-pure s
  or_out_of_stock-Inside x y u v (err no_rows) = Holds-fail out_of_stock leave
  or_out_of_stock-Inside x y u v (err e) = Holds-fail e leave

  reserve-Inside :
      (x y u v : ℕ)
      → Holds env
          (Inside p base x y u v)
          (reserve params)
          (λ _. Inside p base (x + 0) (y + unit p params.product_id) (u + 0) (v + 0))
          (Outside p base)
  unfolding reserve
  reserve-Inside x y u v =
      Holds-bind _ _ _ (Holds-attempt-call rely _ (reserve_stock-Moves p params.product_id))
        (or_out_of_stock-Inside x y u v)

  reserve_and_create-Outside :
      (b : Bool) (c : ℕ) (product : StockedProduct)
      → Holds env
          (Inside p base 0 0 0 0)
          (reserve_and_create b params c product)
          (λ _. Outside p base)
          (Outside p base)
  unfolding reserve_and_create create
  reserve_and_create-Outside true c product =
      Holds-bind _ _ _ (Holds-call rely _ (create_order-Moves p _)) λ order.
        Holds-bind _ _ _ (reserve-Inside _ _ _ _) λ _.
          Holds-bind _ _ _ (Holds-commit rely (omega arith) (omega arith)) λ _. Holds-pure order
  reserve_and_create-Outside false c product = Holds-bind _ _ _ (reserve-Inside _ _ _ _) λ _.
      Holds-bind _ _ _ (Holds-call rely _ (create_order-Moves p _)) λ order.
        Holds-bind _ _ _ (Holds-commit rely (omega arith) (omega arith)) λ _. Holds-pure order

module _ {env : Env} {p : Account} (rely : RelyOn p env) (resolve : Resolver)
    (resolver : ResolverKeeps p env resolve) (params : ReserveParams) where
  pub txn_reserve-Keeps : (b : Bool) → KeepsOutside p env (txn_reserve resolve b params)
  unfolding txn_reserve
  txn_reserve-Keeps b base = Holds-in_transaction rely _ (
      Holds-bind (resolve tx params.claims) _ (λ _. Inside p base 0 0 0 0)
        (Holds-weaken_out _ (resolver.keeps base tx params.claims) leave)
        λ c.
          Holds-bind _ _ _ (Holds-call rely _ (find_product_by_id-Moves p params.product_id))
            (reserve_and_create-Outside rely params b c))

  after_statement-Keeps :
      (base : Db) (r : Result Order)
      → Holds env
          (Post (λ _. Outside p base) (Outside p base) r)
          (after_statement params r)
          (λ _. Outside p base)
          (Outside p base)
  unfolding after_statement
  after_statement-Keeps base (ok order) = Holds-pure order
  after_statement-Keeps base (err no_rows) =
      Holds-bind _ _ _ (Keeps-call rely base pool _ (find_product_by_id-Moves p params.product_id))
        (λ _. Holds-fail out_of_stock (λ _ h. h))
  after_statement-Keeps base (err e) = Holds-fail e (λ _ h. h)

  pub cte_reserve-Keeps : KeepsOutside p env (cte_reserve resolve params)
  unfolding cte_reserve
  cte_reserve-Keeps base = Holds-bind _ _ _ (resolver.keeps base pool params.claims) λ c.
      Holds-bind _ _ _
        (Holds-attempt _ (Keeps-call rely base pool _ (reserve_and_create_order-Moves p _)))
        (after_statement-Keeps base)
