-- ===== src/Products/Routes.antt =====
-- internal/products/handler.go: the handlers of the storefront's routes. The paging of a list is the
-- same as that of internal/orders/handler.go.
use doorbust.Base.{ℕ, ◌-◌, String, Option, none, some, List, map, str_eq, if◌then◌else◌}
use doorbust.Store.{no_rows, Result, ok, err, invalid_row_count}
use doorbust.Session.{M, pure, fail, attempt, ◌>>=◌, time_now}
use doorbust.Queries.ProductRows.{StockedProduct}
use doorbust.Products.{list_products, get_product, create_product}
use doorbust.Orders.Handler.{
  ℤ, pos, Param, Paging, invalid_limit, invalid_offset, paged, parse_pagination, not_found_code,
  internal_code, invalid_request_code,
}
use doorbust.Orders.Handler.Routes.{Reply, sent, rejected}

pub record ProductResponse : Type 0 where
  pub id : ℕ
  pub name : String
  pub price_in_cents : ℕ
  pub created_at : ℕ
  pub start_at : ℕ
  pub quantity : ℕ
  pub num_reserved : ℕ
  pub available : ℕ

-- No more is reserved than there is: CHECK (num_reserved <= quantity).
abbrev pub new_product_response : StockedProduct → ProductResponse
new_product_response p = record {
  id = p.id;
  name = p.name;
  price_in_cents = p.price_in_cents;
  created_at = p.created_at;
  start_at = p.start_at;
  quantity = p.quantity;
  num_reserved = p.num_reserved;
  available = p.quantity - p.num_reserved;
}

abbrev or_internal : {A B : Type 0} → ℕ → (A → B) → Result A → Reply B
or_internal status f (ok a) = sent status (f a)
or_internal status f (err e) = rejected 500 internal_code

abbrev or_not_found : Result StockedProduct → Reply ProductResponse
or_not_found (ok p) = sent 200 (new_product_response p)
or_not_found (err no_rows) = rejected 404 not_found_code
or_not_found (err e) = rejected 500 internal_code

-- The statement refuses a negative LIMIT or OFFSET.
abbrev pub listed : ℤ → ℤ → M (List StockedProduct)
listed (pos limit) (pos offset) = list_products limit offset
listed _ _ = fail invalid_row_count

abbrev pub list_page : Paging → M (Reply (List ProductResponse))
list_page invalid_limit = pure (rejected 400 invalid_request_code)
list_page invalid_offset = pure (rejected 400 invalid_request_code)
list_page (paged limit offset) = do
  rows ← attempt (listed limit offset)
  pure (or_internal 200 (map new_product_response) rows)

unfoldable pub list_products_route : Param → Param → M (Reply (List ProductResponse))
list_products_route limit offset = list_page (parse_pagination limit offset)

-- The path's id, `none` where it is no number.
unfoldable pub get_product_route : Option ℕ → M (Reply ProductResponse)
get_product_route none = pure (rejected 400 invalid_request_code)
get_product_route (some id) = do p ← attempt (get_product id); pure (or_not_found p)

pub record CreateProductRequest : Type 0 where
  pub name : String
  pub price_in_cents : ℤ
  -- `none` is the zero time
  pub start_at : Option ℕ
  pub quantity : ℤ

abbrev start_or_now : Option ℕ → M ℕ
start_or_now none = time_now
start_or_now (some t) = pure t

abbrev add_product : String → ℕ → Option ℕ → ℕ → M (Reply ProductResponse)
add_product name price_in_cents start_at quantity = do
  start_at ← start_or_now start_at
  p ← attempt (
      create_product (record {
        name = name;
        price_in_cents = price_in_cents;
        start_at = start_at;
        quantity = quantity;
      }))
  pure (or_internal 201 new_product_response p)

abbrev checked : String → ℤ → ℤ → Option ℕ → M (Reply ProductResponse)
checked name (pos price) (pos quantity) start_at =
    if str_eq name ""
    then pure (rejected 400 invalid_request_code)
    else add_product name price start_at quantity
checked name _ _ start_at = pure (rejected 400 invalid_request_code)

-- The body, `none` where the decoder refuses it.
unfoldable pub create_product_route : Option CreateProductRequest → M (Reply ProductResponse)
create_product_route none = pure (rejected 400 invalid_request_code)
create_product_route (some req) = checked req.name req.price_in_cents req.quantity req.start_at
