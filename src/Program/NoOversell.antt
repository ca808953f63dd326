-- ===== src/Program/NoOversell.antt =====
-- No request of any history sells a unit that is not there, whichever arm reserves.
use doorbust.Base.{
  ℕ, ◌+◌, ◌≤◌, ◌≡◌, String, Bool, true, false, Option, none, some, List, [], ◌∷◌, sum, All, arith,
}
use mathlib.Core.Path.{subst}
use doorbust.Store.{Db, Stock, Product}
use doorbust.Session.{World, Env, M, pure, ◌>>=◌}
use doorbust.Session.Rules.{Holds-bind, Holds-pure}
use doorbust.Session.Calm.{idle}
use doorbust.Customers.{Resolver}
use doorbust.Customers.Balance.{ResolverKeeps, direct_resolve-Keeps, cached_resolve-Keeps}
use doorbust.Orders.Strategies.{Strategy, ReserveParams, strategy_by_name}
use doorbust.Orders.ByName.{Each, strategy_by_name-Each}
use doorbust.Orders.Balance.{cancel_order-Outside, sweep_expired-Outside}
use doorbust.Orders.ReserveBalance.{KeepsOutside, txn_reserve-Keeps, cte_reserve-Keeps}
use doorbust.Orders.ServiceBalance.{
  get_order-Keeps, list_orders-Keeps, create_order-Keeps, checkout-Keeps,
}
use doorbust.Orders.IdempotencyBalance.{idempotent_reserve-Keeps}
use doorbust.Payments.Balance.{process_next-Keeps}
use doorbust.Program.{
  Config, boot, guarded, guarded_arm, resolver_of, Request, get, list, place, check_out, cancel,
  sweep, next_event, fetch, browse, view, me, deliver, serve, history,
}
use doorbust.Program.EntranceBalance.{
  list_products-Keeps, get_product-Keeps, get_me-Keeps, poll-Keeps, handle_webhook-Keeps,
}
use doorbust.Ledger.{
  Account, books_of, quantity, sold, live, IsBalanced, quantity_of, reserved_of, flaw_of, Drift,
}
use doorbust.Ledger.Actions.{Rely, RelyOn, Outside, Drift-refl}
use doorbust.Ledger.Quiet.{Keeps, Post-out}

-- The books of a product are in order, and no unit has appeared or gone: what was bought since has
-- left the stock, and what is bought or held never exceeds what there was.
pub record StaysSound (p : ℕ) (before after : Db) : Type 0 where
  pub balanced : IsBalanced p after
  pub conserved : quantity p after + sold p after ≡ quantity p before + sold p before
  pub no_oversell : sold p after + live p after ≤ quantity p before + sold p before

reserved-quantity :
    (p : ℕ) (products : List Product) (xs : List Stock)
    → sum (reserved_of p) xs ≤ sum (quantity_of p) xs + sum (flaw_of products) xs
unfolding sum
reserved-quantity p products [] = omega arith
reserved-quantity p products (x ∷ xs) = ground (arith, reserved-quantity p products xs)

pub Drift-StaysSound :
    {p : ℕ} {before after : Db}
    → IsBalanced p before
    → Drift (books_of p) before after 0 0 0 0
    → StaysSound p before after
Drift-StaysSound {p} {before} {after} b d =
    let bound = reserved-quantity p after.products after.stock in
    record {
      balanced = record { matched = omega (arith, b.matched, d.balance); sound = d.sound };
      conserved = omega (arith, d.supply);
      no_oversell = omega (arith, bound, b.matched, d.balance, d.supply, d.sound);
    }

abbrev pub StrategyKeeps : Account → Env → Strategy → Type 0
StrategyKeeps p env reserve = (r : ReserveParams) → KeepsOutside p env (reserve r)

module _ {env : Env} {p : Account} (rely : RelyOn p env) where
  strategy_by_name-Keeps :
      (resolve : Resolver)
      → ResolverKeeps p env resolve
      → (name : String) → Each (StrategyKeeps p env) (strategy_by_name name resolve)
  strategy_by_name-Keeps resolve resolver =
      strategy_by_name-Each (StrategyKeeps p env) resolve
        (λ r. txn_reserve-Keeps rely resolve resolver r false)
        (λ r. txn_reserve-Keeps rely resolve resolver r true)
        (λ r. cte_reserve-Keeps rely resolve resolver r)

  resolver_of-Keeps : (b : Bool) → ResolverKeeps p env (resolver_of b)
  resolver_of-Keeps true = cached_resolve-Keeps rely
  resolver_of-Keeps false = direct_resolve-Keeps rely

  guarded-Keeps :
      (b : Bool) (request_hash : ℕ → String) (reserve : Strategy)
      → StrategyKeeps p env reserve
      → StrategyKeeps p env (guarded b request_hash reserve)
  guarded-Keeps true request_hash reserve h = idempotent_reserve-Keeps rely request_hash reserve h
  guarded-Keeps false request_hash reserve h = h

  guarded_arm-Keeps :
      (config : Config) (arm : Option Strategy)
      → Each (StrategyKeeps p env) arm
      → Each (StrategyKeeps p env) (guarded_arm config arm)
  guarded_arm-Keeps config none h = tt
  guarded_arm-Keeps config (some reserve) h =
      guarded-Keeps config.idempotency config.request_hash reserve h

  pub boot-Keeps :
      (config : Config) (reserve : Strategy)
      → boot config ≡ some reserve
      → StrategyKeeps p env reserve
  unfolding boot
  boot-Keeps config reserve booted = subst (Each (StrategyKeeps p env)) booted (
      guarded_arm-Keeps config _ (
        strategy_by_name-Keeps (resolver_of config.customer_cache)
          (resolver_of-Keeps config.customer_cache) config.reserve_strategy))

  module _ (config : Config) (reserve : Strategy) (keeps : StrategyKeeps p env reserve)
      (base : Db) where
    -- The answer is for the caller; the books do not depend on it.
    answered-Keeps :
        {A : Type 0} (m : M A)
        → Keeps env (Outside p base) m
        → Keeps env (Outside p base) (m >>= λ _. pure tt)
    answered-Keeps m h = Holds-bind m _ _ h (λ _. Holds-pure tt)

    serve-Keeps : (request : Request) → Keeps env (Outside p base) (serve config reserve request)
    unfolding serve
    serve-Keeps (get id claims) = answered-Keeps _ (get_order-Keeps rely id claims base)
    serve-Keeps (list claims limit offset) =
        answered-Keeps _ (list_orders-Keeps rely claims limit offset base)
    serve-Keeps (place m) =
        answered-Keeps _ (create_order-Keeps rely reserve config.reservation_ttl m keeps base)
    serve-Keeps (check_out id claims) =
        answered-Keeps _ (checkout-Keeps rely config.gateway config.reservation_ttl id claims base)
    serve-Keeps (cancel id claims) = answered-Keeps _ (cancel_order-Outside rely id claims)
    serve-Keeps sweep = answered-Keeps _ (sweep_expired-Outside rely config.sweep_batch_size)
    serve-Keeps next_event =
        answered-Keeps _ (process_next-Keeps rely config.codec config.max_attempts base)
    serve-Keeps fetch = answered-Keeps _ (poll-Keeps rely config.poller base)
    serve-Keeps (browse limit offset) =
        answered-Keeps _ (list_products-Keeps rely limit offset base)
    serve-Keeps (view id) = answered-Keeps _ (get_product-Keeps rely id base)
    serve-Keeps (me caller) = answered-Keeps _ (get_me-Keeps rely config.vendor_group caller base)
    serve-Keeps (deliver payload signature) = answered-Keeps _ (
        handle_webhook-Keeps rely config.construct_event config.webhook_secret payload signature
          base)

pub history-Outside :
    (p : Account) (config : Config) (reserve : Strategy) (base : Db)
    → boot config ≡ some reserve
    → (requests : List (Env × Request)) → All (λ r. RelyOn p r.0) requests
    → (w : World) → Outside p base w
    → Outside p base (history config reserve requests w)
unfolding history
history-Outside p config reserve base booted [] relies w h = h
history-Outside p config reserve base booted ((env, request) ∷ rest) (rely, relies) w h =
    let served =
      serve-Keeps rely config reserve (boot-Keeps rely config reserve booted) base request in
    history-Outside p config reserve base booted rest relies _
      (Post-out (Outside p base) _ _ (served.at w h))

-- Whatever arm the program boots with, and whatever requests it serves: from books in order, where
-- the other transactions that commit in between keep books in order, every request leaves the
-- product's books in order, no unit appears or gets lost, and the units sold and held are never more
-- than the units that were there and sold at the start. Calls of the database may fail at any point,
-- a commit whose answer is lost among them.
pub history-StaysSound :
    (p : ℕ) (config : Config) (reserve : Strategy)
    → boot config ≡ some reserve
    → (requests : List (Env × Request)) → All (λ r. Rely p r.0) requests
    → (w : World) → IsBalanced p w.shared
    → StaysSound p w.shared (history config reserve requests w).shared
history-StaysSound p config reserve booted requests relies w balanced =
    Drift-StaysSound balanced
      (history-Outside (books_of p) config reserve w.shared booted requests relies w
        (record { kept = Drift-refl balanced.sound })).kept

history-RelyOn :
    (p : Account) (config : Config) (reserve : Strategy)
    → boot config ≡ some reserve
    → (env : Env) (others : ℕ → List (Env × Request))
    → ((n : ℕ) → All (λ r. RelyOn p r.0) (others n))
    → RelyOn p (λ n. record (env n) {
      meanwhile = λ db. (history config reserve (others n) (idle db)).shared;
    })
history-RelyOn p config reserve booted env others relies = record {
  others = λ n db sound.
      (history-Outside p config reserve db booted (others n) (relies n) (idle db)
        (record { kept = Drift-refl sound })).kept;
}

-- The other transactions may be requests of the program itself: where the others commit, between any
-- two calls, what a history of requests commits, each among surroundings that keep the product's
-- books in order, they keep them in order too.
pub history-Rely :
    (p : ℕ) (config : Config) (reserve : Strategy)
    → boot config ≡ some reserve
    → (env : Env) (others : ℕ → List (Env × Request)) → ((n : ℕ) → All (λ r. Rely p r.0) (others n))
    → Rely p (λ n. record (env n) {
      meanwhile = λ db. (history config reserve (others n) (idle db)).shared;
    })
history-Rely p config reserve booted env others relies =
    history-RelyOn (books_of p) config reserve booted env others relies
