-- ===== src/Queries/KeyRows.antt =====
-- The statements on `order_idempotency`, whose key is (cognito_sub, idem_key).
use doorbust.Base.{
  ℕ, String, Bool, Option, none, some, List, [], ◌∷◌, ◌++◌, not, ◌&&◌, str_eq, if◌then◌else◌, find,
  update_first, keep,
}
use doorbust.Store.{Db, OrderIdempotency, Result, ok, err, no_rows}
use doorbust.Queries.Turns.{Query, Turn}
use doorbust.Queries.OrderRows.{is_found}

abbrev pub has_key : String → String → OrderIdempotency → Bool
has_key sub key k = str_eq k.cognito_sub sub && str_eq k.idem_key key

-- … AND order_id IS NULL
abbrev pub is_unfinished : String → String → OrderIdempotency → Bool
is_unfinished sub key k = has_key sub key k && not (is_found k.order_id)

abbrev pub new_key : String → String → String → Turn → OrderIdempotency
new_key sub key hash turn = record {
  cognito_sub = sub;
  idem_key = key;
  request_hash = hash;
  order_id = none;
  created_at = turn.now;
}

-- ON CONFLICT DO NOTHING: no row comes back where the key is taken.
unfoldable pub claim_idempotency_key : String → String → String → Query OrderIdempotency
claim_idempotency_key sub key hash turn db =
    if is_found (find (has_key sub key) db.idempotency) then (err no_rows, db) else (
      ok (new_key sub key hash turn),
      record db { idempotency = db.idempotency ++ new_key sub key hash turn ∷ [] },
    )

abbrev found_key : Db → Option OrderIdempotency → Result OrderIdempotency × Db
found_key db none = (err no_rows, db)
found_key db (some k) = (ok k, db)

unfoldable pub find_idempotency_key : String → String → Query OrderIdempotency
find_idempotency_key sub key turn db = found_key db (find (has_key sub key) db.idempotency)

-- An :exec statement says nothing of how many rows it met.
abbrev written_keys : Db → Option (OrderIdempotency × List OrderIdempotency) → Db
written_keys db none = db
written_keys db (some (k, rows)) = record db { idempotency = rows }

unfoldable pub complete_idempotency_key : String → String → ℕ → Query (Unit {0})
complete_idempotency_key sub key order_id turn db = (
  ok tt,
  written_keys db (
      update_first (is_unfinished sub key) (λ k. record k { order_id = some order_id })
        db.idempotency),
)

unfoldable pub release_idempotency_key : String → String → Query (Unit {0})
release_idempotency_key sub key turn db =
    (ok tt, record db { idempotency = keep (λ k. not (is_unfinished sub key k)) db.idempotency })
