-- ===== src/Tests/Callers.antt =====
-- Callers: who sees an order, what a key replays, and a lost race for a new customer.
use doorbust.Base.{
  update_first, ◌==◌, ◌≡◌, refl, some, none, false, [], ◌∷◌, ◌++◌, if◌then◌else◌, sum, repeats,
}
use doorbust.Store.{
  Stock, Customer, ok, err, pending, forbidden, order_not_pending, unique_violation,
  in_failed_transaction,
}
use doorbust.Queries.OrderRows.{new_order, owned, find_order_by_id}
use doorbust.Queries.CustomerRows.{find_customer_by_sub, link_customer}
use doorbust.Session.{Env, tx, call, ◌>>=◌, attempt}
use doorbust.Session.Calm.{calm, calm_turn, idle}
use doorbust.Auth.{Claims}
use doorbust.Customers.{link, link_once, by_sub, by_email, direct_resolve}
use doorbust.Customers.Retry.{link-no_retry_in_transaction}
use doorbust.Orders.Strategies.{cte_reserve, strategy_by_name}
use doorbust.Orders.Idempotency.{idempotent_reserve}
use doorbust.Orders.Service.{owns, get_order, check_owner, cancel_order}
use doorbust.Orders.Access.{IsOwner, get_order-IsOwner, cancel_order-refused}
use doorbust.Orders.Replay.{idempotent_reserve-replay, replayed}
use doorbust.Ledger.{flaws}
use doorbust.Orders.Arms.{known, order_params, Answers}
use doorbust.Orders.Once.{IsOne, placed_once, idempotent_reserve-once}
use doorbust.Queries.StockRows.{has_unit, reserve_one}
use doorbust.Tests.Shop.{
  chair, chairs, shop, keyed_shop, key_row, order_in, ann, bob, ann_row, ask, one_hash,
}

shown : (get_order 10 ann (calm 50 50) (idle shop)).0 ≡ ok (owned (order_in pending none) ann_row)
unfolding get_order check_owner owns find_order_by_id call ◌>>=◌
shown = refl

get_order-IsOwner_example : IsOwner (some "sub-ann") "ann@example.com" ann
get_order-IsOwner_example =
    get_order-IsOwner (calm 50 50) ann 10 (idle shop) (owned (order_in pending none) ann_row) shown

-- Bob shares Ann's email.
not_bobs : owns (some "sub-ann") "ann@example.com" bob ≡ false
unfolding owns
not_bobs = refl

sound : flaws shop ≡ 0
unfolding sum repeats
sound = refl

cancel_order-refused_example :
    ((cancel_order 10 bob (calm 50 50) (idle shop)).0
      ≡ err (if owns (some "sub-ann") "ann@example.com" bob then order_not_pending else forbidden))
    × ((cancel_order 10 bob (calm 50 50) (idle shop)).1.shared ≡ shop)
cancel_order-refused_example =
    cancel_order-refused 50 50 shop bob (order_in pending none) ann_row sound refl refl
      (rw not_bobs refl)

idempotent_reserve-replay_example :
    ((idempotent_reserve one_hash (cte_reserve direct_resolve) ask (calm 50 50) (idle keyed_shop)).0
      ≡ replayed keyed_shop "hash" key_row)
    × ((idempotent_reserve one_hash
          (cte_reserve direct_resolve)
          ask
          (calm 50 50)
          (idle keyed_shop)).1.shared
        ≡ keyed_shop)
idempotent_reserve-replay_example =
    idempotent_reserve-replay one_hash (cte_reserve direct_resolve) ask 50 50 keyed_shop key_row
      refl refl

abbrev newcomer : Claims
newcomer = record { subject = "sub-new"; email = "new@example.com"; groups = [] }

abbrev taken : Customer
taken = record { id = 2; email = "other@example.com"; created_at = 0; cognito_sub = some "sub-new" }

-- Between the SELECT and the INSERT of the link, another request inserts the subject.
abbrev racing : Env
racing n = record (calm_turn 50 50) {
  meanwhile = λ db. if n == 1 then record db { customers = db.customers ++ taken ∷ [] } else db;
}

race_lost : (link_once tx newcomer racing (idle shop)).0 ≡ err unique_violation
unfolding link_once by_sub by_email find_customer_by_sub link_customer call ◌>>=◌ attempt
race_lost = refl

link-no_retry_in_transaction_example :
    (link tx newcomer racing (idle shop)).0 ≡ err in_failed_transaction
link-no_retry_in_transaction_example =
    link-no_retry_in_transaction racing newcomer (idle shop) race_lost

abbrev all_held : Stock
all_held = record { product_id = 7; quantity = 2; num_reserved = 2 }

one_free : update_first (has_unit 7) reserve_one shop.stock ≡ some (all_held, all_held ∷ [])
unfolding update_first
one_free = refl

named : strategy_by_name "cte" (known 1) ≡ some (cte_reserve (known 1))
unfolding strategy_by_name
named = refl

idempotent_reserve-once_example :
    let order = new_order (order_params ask 1 chair) (calm_turn 40 11) in
    let after = placed_once ask 1 "hash" 40 11 shop chair (all_held ∷ []) in
    Answers 40 11
      (idle shop)
      (idempotent_reserve one_hash (cte_reserve (known 1)) ask)
      (ok order, after)
    × IsOne 7 1 order shop after
    × Answers 45 12
        (idle after)
        (idempotent_reserve one_hash (cte_reserve (known 1)) ask)
        (ok order, after)
idempotent_reserve-once_example =
    idempotent_reserve-once one_hash ask ann_row 40 11 shop refl refl chair chairs refl refl
      all_held (all_held ∷ []) one_free "cte" (cte_reserve (known 1)) named refl refl 45 12
