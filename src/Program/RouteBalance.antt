-- ===== src/Program/RouteBalance.antt =====
-- The handlers of internal/orders/handler.go and internal/products/handler.go leave every product's
-- books in order, but for the one that adds a product.
use doorbust.Base.{ℕ, zero, suc, String, Option, none, some}
use doorbust.Store.{Result, invalid_row_count}
use doorbust.Session.{Env, M, pool, pure, attempt, ◌>>=◌}
use doorbust.Session.Rules.{Holds-bind, Holds-pure, Holds-fail, Holds-return}
use doorbust.Customers.Balance.{link-CustomerCalls, Rely-CustomerCalls}
use doorbust.Auth.{Claims}
use doorbust.Orders.Handler.{
  ℤ, pos, negsuc, Param, Paging, paged, invalid_limit, invalid_offset, parse_pagination,
}
use doorbust.Orders.Handler.Routes.{
  get_order_route, list_orders_route, create_order_route, checkout_route, cancel_order_route, reply,
  listed, list_page,
}
use doorbust.Orders.Balance.{cancel_order-Outside}
use doorbust.Orders.ReserveBalance.{KeepsOutside}
use doorbust.Orders.Strategies.{Strategy, ReserveParams}
use doorbust.Orders.Service.{PaymentGateway}
use doorbust.Orders.ServiceBalance.{
  get_order-Keeps, list_orders-Keeps, create_order-Keeps, checkout-Keeps,
}
use doorbust.Products.Routes.{
  list_products_route, get_product_route, listed as listed_products, list_page as product_page,
}
use doorbust.Program.EntranceBalance.{list_products-Keeps, get_product-Keeps}
use doorbust.Ledger.{Account}
use doorbust.Ledger.Actions.{RelyOn, Outside}
use doorbust.Ledger.Quiet.{Holds-attempt, Post-out}

module _ {env : Env} {p : Account} where
  -- An error is made an answer.
  attempted-Keeps :
      {A B : Type 0} (m : M A)
      → KeepsOutside p env m
      → (f : Result A → B) → KeepsOutside p env (attempt m >>= λ r. pure (f r))
  attempted-Keeps m h f base =
      Holds-bind _ _ _ (Holds-attempt m (h base))
        λ r. Holds-return _ (λ w k. Post-out (Outside p base) r w k)

  reply-Keeps :
      {A B : Type 0} (status : ℕ) (f : A → B) (m : M A)
      → KeepsOutside p env m
      → KeepsOutside p env (reply status f m)
  unfolding reply
  reply-Keeps status f m h = attempted-Keeps m h _

module _ {env : Env} {p : Account} (rely : RelyOn p env) where
  listed_products-Keeps : (limit offset : ℤ) → KeepsOutside p env (listed_products limit offset)
  listed_products-Keeps (pos limit) (pos offset) base = list_products-Keeps rely limit offset base
  listed_products-Keeps (pos limit) (negsuc offset) base = Holds-fail invalid_row_count (λ _ h. h)
  listed_products-Keeps (negsuc limit) offset base = Holds-fail invalid_row_count (λ _ h. h)

  product_page-Keeps : (paging : Paging) → KeepsOutside p env (product_page paging)
  product_page-Keeps invalid_limit base = Holds-pure _
  product_page-Keeps invalid_offset base = Holds-pure _
  product_page-Keeps (paged limit offset) base =
      attempted-Keeps _ (listed_products-Keeps limit offset) _ base

  pub list_products_route-Keeps :
      (limit offset : Param) → KeepsOutside p env (list_products_route limit offset)
  unfolding list_products_route
  list_products_route-Keeps limit offset = product_page-Keeps (parse_pagination limit offset)

  pub get_product_route-Keeps : (id : Option ℕ) → KeepsOutside p env (get_product_route id)
  unfolding get_product_route
  get_product_route-Keeps none base = Holds-pure _
  get_product_route-Keeps (some id) base = attempted-Keeps _ (get_product-Keeps rely id) _ base

  refused_page-Keeps :
      (claims : Claims) → KeepsOutside p env (listed claims (paged (negsuc 0) (pos 0)))
  refused_page-Keeps claims base =
      Holds-bind _ _ _ (link-CustomerCalls (Rely-CustomerCalls rely base pool) claims)
        λ c. Holds-fail invalid_row_count (λ _ h. h)

  listed-Keeps :
      (claims : Claims) (limit offset : ℤ) → KeepsOutside p env (listed claims (paged limit offset))
  listed-Keeps claims (pos limit) (pos offset) base =
      list_orders-Keeps rely claims limit offset base
  listed-Keeps claims (pos limit) (negsuc offset) base = refused_page-Keeps claims base
  listed-Keeps claims (negsuc limit) offset base = refused_page-Keeps claims base

  list_page-Keeps :
      (claims : Claims) (paging : Paging) → KeepsOutside p env (list_page claims paging)
  list_page-Keeps claims invalid_limit base = Holds-pure _
  list_page-Keeps claims invalid_offset base = Holds-pure _
  list_page-Keeps claims (paged limit offset) base =
      reply-Keeps 200 _ _ (listed-Keeps claims limit offset) base

  pub list_orders_route-Keeps :
      (caller : Option Claims) (limit offset : Param)
      → KeepsOutside p env (list_orders_route caller limit offset)
  unfolding list_orders_route
  list_orders_route-Keeps none limit offset base = Holds-pure _
  list_orders_route-Keeps (some claims) limit offset base =
      list_page-Keeps claims (parse_pagination limit offset) base

  pub get_order_route-Keeps :
      (id : Option ℕ) (caller : Option Claims) → KeepsOutside p env (get_order_route id caller)
  unfolding get_order_route
  get_order_route-Keeps none caller base = Holds-pure _
  get_order_route-Keeps (some id) none base = Holds-pure _
  get_order_route-Keeps (some id) (some claims) base =
      reply-Keeps 200 _ _ (get_order-Keeps rely id claims) base

  pub create_order_route-Keeps :
      (reserve : Strategy) (ttl : ℕ)
      → ((r : ReserveParams) → KeepsOutside p env (reserve r))
      → (caller : Option Claims) (key : String) (body : Option ℤ)
      → KeepsOutside p env (create_order_route reserve ttl caller key body)
  unfolding create_order_route
  create_order_route-Keeps reserve ttl keeps caller key none base = Holds-pure _
  create_order_route-Keeps reserve ttl keeps caller key (some (negsuc n)) base = Holds-pure _
  create_order_route-Keeps reserve ttl keeps caller key (some (pos zero)) base = Holds-pure _
  create_order_route-Keeps reserve ttl keeps none key (some (pos (suc n))) base = Holds-pure _
  create_order_route-Keeps reserve ttl keeps (some claims) key (some (pos (suc n))) base =
      reply-Keeps 201 _ _ (create_order-Keeps rely reserve ttl _ keeps) base

  pub checkout_route-Keeps :
      (gateway : PaymentGateway) (ttl : ℕ) (id : Option ℕ) (caller : Option Claims)
      → KeepsOutside p env (checkout_route gateway ttl id caller)
  unfolding checkout_route
  checkout_route-Keeps gateway ttl none caller base = Holds-pure _
  checkout_route-Keeps gateway ttl (some id) none base = Holds-pure _
  checkout_route-Keeps gateway ttl (some id) (some claims) base =
      reply-Keeps 200 _ _ (checkout-Keeps rely gateway ttl id claims) base

  pub cancel_order_route-Keeps :
      (id : Option ℕ) (caller : Option Claims) → KeepsOutside p env (cancel_order_route id caller)
  unfolding cancel_order_route
  cancel_order_route-Keeps none caller base = Holds-pure _
  cancel_order_route-Keeps (some id) none base = Holds-pure _
  cancel_order_route-Keeps (some id) (some claims) base =
      reply-Keeps 200 _ _ (λ base. cancel_order-Outside rely id claims) base
