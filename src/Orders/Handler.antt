-- ===== src/Orders/Handler.antt =====
-- internal/orders/handler.go: the paging of a list, and the answer to each error.
pub mod Limits
pub mod Routes
use doorbust.Base.{
  ℕ, ◌-◌, ◌%◌, String, Bool, true, false, not, ◌||◌, Option, none, some, ltb, leb, str_eq,
  if◌then◌else◌, zero, suc,
}
use doorbust.Store.{
  Error, no_rows, forbidden, out_of_stock, order_not_pending, idempotency_key_reused,
  reserve_in_progress,
}

-- Go's signed integers: `negsuc n` is -(n + 1).
pub data ℤ : Type 0 where
  pos negsuc : ℕ → ℤ

abbrev pub two_31 : ℕ
two_31 = 2147483648

abbrev pub two_32 : ℕ
two_32 = 4294967296

-- int32(n) of a number that is not negative keeps the low 32 bits.
unfoldable pub int32 : ℕ → ℤ
int32 n = let low = n % two_32 in if ltb low two_31 then pos low else negsuc (two_32 - low - 1)

abbrev pub default_list_limit : ℕ
default_list_limit = 20

abbrev pub max_list_limit : ℕ
max_list_limit = 100

abbrev pub at_most : ℕ → ℤ → ℤ
at_most m (pos n) = if ltb m n then pos m else pos n
at_most m (negsuc n) = negsuc n

-- A parameter of the query: not given, no number, or a number.
pub data Param : Type 0 where
  absent malformed : Param
  number : ℤ → Param

pub data Paging : Type 0 where
  invalid_limit invalid_offset : Paging
  paged : ℤ → ℤ → Paging

abbrev pub limit_of : Param → Option ℤ
limit_of absent = some (pos default_list_limit)
limit_of malformed = none
limit_of (number (negsuc n)) = none
limit_of (number (pos zero)) = none
limit_of (number (pos (suc n))) = some (int32 (suc n))

abbrev pub offset_of : Param → Option ℤ
offset_of absent = some (pos 0)
offset_of malformed = none
offset_of (number (negsuc n)) = none
offset_of (number (pos n)) = some (int32 n)

abbrev pub paged_at : ℤ → Option ℤ → Paging
paged_at limit none = invalid_offset
paged_at limit (some offset) = paged limit offset

abbrev paging : Option ℤ → Option ℤ → Paging
paging none offset = invalid_limit
paging (some limit) offset = paged_at (at_most max_list_limit limit) offset

-- parsePagination; `strconv.Atoi` has made numbers of the parameters.
unfoldable pub parse_pagination : Param → Param → Paging
parse_pagination limit offset = paging (limit_of limit) (offset_of offset)

-- The code of the error's answer, and its HTTP status.
pub data Code : Type 0 where
  not_found_code forbidden_code out_of_stock_code order_not_pending_code : Code
  idempotency_key_reused_code reserve_in_progress_code internal_code : Code
  invalid_request_code unauthorized_code rate_limited_code : Code

-- internal/json/json.go
abbrev pub code_text : Code → String
code_text not_found_code = "not_found"
code_text forbidden_code = "forbidden"
code_text out_of_stock_code = "out_of_stock"
code_text order_not_pending_code = "order_not_pending"
code_text idempotency_key_reused_code = "idempotency_key_reused"
code_text reserve_in_progress_code = "reserve_in_progress"
code_text internal_code = "internal_error"
code_text invalid_request_code = "invalid_request"
code_text unauthorized_code = "unauthorized"
code_text rate_limited_code = "rate_limited"

-- writeOrderError
unfoldable pub order_error : Error → ℕ × Code
order_error no_rows = (404, not_found_code)
order_error forbidden = (403, forbidden_code)
order_error out_of_stock = (409, out_of_stock_code)
order_error order_not_pending = (409, order_not_pending_code)
order_error idempotency_key_reused = (409, idempotency_key_reused_code)
order_error reserve_in_progress = (409, reserve_in_progress_code)
order_error _ = (500, internal_code)
