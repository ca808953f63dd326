-- ===== src/Store/Errors.antt =====
-- How a call ends. `errors.Is` looks for a sentinel through the wrapping, so an error is the
-- sentinel that it wraps, with the values of its message.
use doorbust.Base.{ℕ, Bool, true, false, ◌≡◌, refl, ◌⊎◌, inl, inr}
use doorbust.Store.Rows.{Status}

pub data Error : Type 0 where
  -- pgx.ErrNoRows
  no_rows : Error
  -- Postgres' refusals: 23505, 23514, 23503, 25P02, and 2201W or 2201X for a negative LIMIT or OFFSET
  unique_violation check_violation foreign_key_violation in_failed_transaction : Error
  invalid_row_count : Error
  -- the connection failed: the statement did not run, or its answer was lost
  connection_lost : Error
  -- the sentinels of internal/orders
  out_of_stock order_not_pending forbidden : Error
  idempotency_key_reused reserve_in_progress : Error
  paid_but_not_fulfillable : ℕ → Status → Error
  -- the payment processor refused, or could not be reached
  gateway_failed : Error
  -- a stored event from which no payment intent can be read
  bad_payload : Error

pub data Result {ℓ} (A : Type ℓ) : Type ℓ where
  ok : A → Result A
  err : Error → Result A

pub Result-cases {ℓ} :
    {A : Type ℓ} (r : Result A) → ((a : A) × (r ≡ ok a)) ⊎ ((e : Error) × (r ≡ err e))
Result-cases (ok a) = inl (a, refl)
Result-cases (err e) = inr (e, refl)

-- errors.Is(err, pgx.ErrNoRows)
abbrev pub is_no_rows : Error → Bool
is_no_rows no_rows = true
is_no_rows _ = false
