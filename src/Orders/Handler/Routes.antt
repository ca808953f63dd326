-- ===== src/Orders/Handler/Routes.antt =====
-- internal/orders/handler.go: the handlers of the routes below /orders.
use doorbust.Base.{ℕ, zero, suc, String, Option, none, some, List, map}
use doorbust.Store.{Order, Status, Result, ok, err, invalid_row_count}
use doorbust.Session.{M, pure, fail, attempt, ◌>>=◌, ◌>>◌, pool}
use doorbust.Queries.OrderRows.{OwnedOrder}
use doorbust.Queries.Pages.{ListedOrder}
use doorbust.Auth.{Claims}
use doorbust.Customers.{link}
use doorbust.Orders.Strategies.{Strategy}
use doorbust.Orders.Service.{
  PaymentGateway, CheckoutResult, get_order, list_orders, create_order, checkout, cancel_order,
}
use doorbust.Orders.Handler.{
  ℤ, pos, negsuc, Code, Param, Paging, invalid_limit, invalid_offset, paged, parse_pagination,
  order_error, invalid_request_code, unauthorized_code,
}

-- What goes out: a status with a body, or with the code of an error.
pub data Reply {ℓ} (A : Type ℓ) : Type ℓ where
  sent : ℕ → A → Reply A
  rejected : ℕ → Code → Reply A

pub record OrderResponse : Type 0 where
  pub id : ℕ
  pub product_id : ℕ
  pub product_name : String
  pub status : Status
  pub total_in_cents : ℕ
  pub created_at : ℕ
  pub expires_at : Option ℕ
  pub payment_intent_id : String

-- The string of a NULL is empty, and left out of the body.
abbrev pub string_of : Option String → String
string_of none = ""
string_of (some s) = s

unfoldable pub from_order : Order → String → OrderResponse
from_order o product_name = record {
  id = o.id;
  product_id = o.product_id;
  product_name = product_name;
  status = o.status;
  total_in_cents = o.total_in_cents;
  created_at = o.created_at;
  expires_at = o.expires_at;
  payment_intent_id = string_of o.stripe_payment_intent_id;
}

abbrev pub reject : {B : Type 0} → ℕ × Code → Reply B
reject (status, code) = rejected status code

module _ {A B : Type 0} where
  -- The service's answer, or writeOrderError.
  unfoldable pub written : ℕ → (A → B) → Result A → Reply B
  written status f (ok a) = sent status (f a)
  written status f (err e) = reject (order_error e)

  unfoldable pub reply : ℕ → (A → B) → M A → M (Reply B)
  reply status f m = do r ← attempt m; pure (written status f r)

-- callerAndID: the path's id, `none` where it is no number, and the identity on the context.
abbrev with_caller : {B : Type 0} → Option Claims → (Claims → M (Reply B)) → M (Reply B)
with_caller none next = pure (rejected 401 unauthorized_code)
with_caller (some claims) next = next claims

abbrev caller_and_id :
    {B : Type 0} → Option ℕ → Option Claims → (Claims → ℕ → M (Reply B)) → M (Reply B)
caller_and_id none caller next = pure (rejected 400 invalid_request_code)
caller_and_id (some id) caller next = with_caller caller (λ claims. next claims id)

unfoldable pub get_order_route : Option ℕ → Option Claims → M (Reply OrderResponse)
get_order_route id caller =
    caller_and_id id caller
      (λ claims id. reply 200 (λ (o : OwnedOrder). from_order o.order "") (get_order id claims))

-- The statement refuses a negative LIMIT or OFFSET, after the caller has been linked.
abbrev pub listed : Claims → Paging → M (List ListedOrder)
listed claims (paged (pos limit) (pos offset)) = list_orders claims limit offset
listed claims _ = link pool claims >> fail invalid_row_count

abbrev pub list_page : Claims → Paging → M (Reply (List OrderResponse))
list_page claims invalid_limit = pure (rejected 400 invalid_request_code)
list_page claims invalid_offset = pure (rejected 400 invalid_request_code)
list_page claims (paged limit offset) =
    reply 200 (map (λ (o : ListedOrder). from_order o.order o.product_name))
      (listed claims (paged limit offset))

unfoldable pub list_orders_route : Option Claims → Param → Param → M (Reply (List OrderResponse))
list_orders_route caller limit offset =
    with_caller caller (λ claims. list_page claims (parse_pagination limit offset))

-- The Idempotency-Key header, "" where there is none, and the body, `none` where the decoder refuses it: its product_id.
unfoldable pub create_order_route :
    Strategy → ℕ → Option Claims → String → Option ℤ → M (Reply OrderResponse)
create_order_route reserve ttl caller key none = pure (rejected 400 invalid_request_code)
create_order_route reserve ttl caller key (some (negsuc n)) =
    pure (rejected 400 invalid_request_code)
create_order_route reserve ttl caller key (some (pos zero)) =
    pure (rejected 400 invalid_request_code)
create_order_route reserve ttl caller key (some (pos (suc n))) = with_caller caller (λ claims.
    reply 201 (λ o. from_order o "")
      (create_order reserve ttl
        (record { product_id = suc n; claims = claims; idempotency_key = key })))

pub record CheckoutResponse : Type 0 where
  pub order : OrderResponse
  pub client_secret : String

unfoldable pub checkout_route :
    PaymentGateway → ℕ → Option ℕ → Option Claims → M (Reply CheckoutResponse)
checkout_route gateway ttl id caller = caller_and_id id caller (λ claims id.
    reply 200
      (λ (r : CheckoutResult). record {
        order = from_order r.order "";
        client_secret = r.client_secret;
      })
      (checkout gateway ttl id claims))

unfoldable pub cancel_order_route : Option ℕ → Option Claims → M (Reply OrderResponse)
cancel_order_route id caller =
    caller_and_id id caller (λ claims id. reply 200 (λ o. from_order o "") (cancel_order id claims))
