-- ===== src/Lib.antt =====
-- Doorbust: a shop that sells a few units to many buyers at once. This library models the part of
-- the server that must not oversell, and proves that it does not.
--
-- The program. Every fact is a row of a Postgres database. A buyer reserves a unit, which makes a
-- pending order; checks out, which asks the payment processor for an intent; and pays. The
-- processor tells the server about the payment by events, which a worker takes from an inbox and
-- applies to the order. A sweeper expires the orders that are never paid for. Units move by guarded
-- UPDATEs only: `stock.num_reserved` counts the units that live orders hold.
--
-- The files.
--   Base            tests on numbers and strings; lists as tables (find, update_first, sum, repeats).
--   Store           the rows of internal/adapters/postgresql/sqlc/models.go, the order statuses, and
--                   the errors as one sum: those of the database and the sentinels of the services.
--   Queries         a definition for each statement of sqlc/queries.sql.go, from its SQL text. A
--                   statement is a function of a turn (what the surroundings contribute to the call)
--                   and the database, to a result and a database. A guarded UPDATE that meets no row
--                   answers `no_rows`, as pgx does for a :one statement.
--   Session         sqlc/db.go, sqlc/tx.go and the use of them: statements on the pool or in a
--                   transaction, Begin, Commit and the deferred Rollback. The error returns of Go are
--                   the failures of a monad; `attempt` is an error that the code looks at.
--   Auth, Customers internal/auth/middleware.go (Auth has the claims) and internal/customers/link.go
--                   and resolver.go; Customers.Profile has service.go and handler.go.
--   Orders          internal/orders: Strategies (strategy.go, strategy_txn.go, strategy_cte.go),
--                   Idempotency (strategy_idempotent.go), Service (service.go, status.go), Sweeper
--                   (sweeper.go). The other modules below it are named for what they prove.
--                   Handler has the paging and the error table of handler.go, Handler.Routes the
--                   handlers.
--   Products        internal/products/service.go; Products.Routes has handler.go.
--   Payments        internal/payments: Events (events.go), Worker (worker.go), Poller (poller.go),
--                   Webhook (handler.go) and Gateway (gateway.go).
--   RateLimit       internal/ratelimit/ratelimit.go, with the map of the buckets as a function.
--   Readiness       cmd/ready.go.
--   Ledger          the books of a product: what a statement, and then an action, does to them.
--   Bench           the load generator below bench/internal: loadgen (Outcomes is classify.go,
--                   Recorder recorder.go, Dispatch run.go, Arrivals schedule.go), report (Report),
--                   verify (Inventory), workload (Workload is guard.go and shapes.go, Seeding seed.go),
--                   and run/run.go (Execution is Execute, Validity applyValidity); and the two
--                   subcommands of bench/main.go (Command).
--   Program         the wiring of cmd/api.go, and histories of requests: those of the order, product and
--                   profile routes, of the webhook, and of the sweeper, the worker and the poller; the
--                   routes as mount puts them together (Mount), and histories of HTTP requests.
--   Tests           a small shop, with runs of the model.
--
-- The surroundings. Before each call other transactions may commit: an arbitrary change of what is
-- committed, which the open transaction sees too (READ COMMITTED). A call may never arrive, or its
-- answer may be lost, a COMMIT's included; then the caller sees an error and knows no more. After an
-- error a transaction refuses every further statement. The process remembers ids of customers between
-- requests (the cached resolver); that is a field of the session's state. The lock that a statement takes on a row is
-- not modelled as such: that nobody else changes what a transaction has written, is part of what the
-- invariants ask of the others (`Rely`), and the program is proved to keep it.
--
-- Numbers. Ids, amounts, quantities and times are natural numbers; the sequences and the CHECK
-- constraints keep them from being negative. Where an UPDATE subtracts one, its guard says that there
-- is one. A nullable column is an `Option`. Statuses are a data type with a constructor for any other
-- string.
--
-- Parameters. The payment processor is a function from a request to an intent or a refusal; the JSON
-- decoder and the texts of errors are the record `Codec`; the list of events and the JSON encoder are
-- fields of the record `Poller`; the verifier of tokens is a function to claims; the
-- token bucket of golang.org/x/time/rate is the record `TokenBucket`; net.SplitHostPort is a function; the hex form of a
-- SHA-256 of a product's id is a function from ids to strings; the check of a webhook's signature is a
-- function to an event; the path of a DSN is what url.Parse finds; the draws of rand.Zipf and of an
-- exponential are numbers. What a run of the benchmark meets outside itself is the record `Surroundings`,
-- and what happens to each of its requests a `Send`.
--
-- Loops. The three attempts of a link are recursion on the number of attempts that are left, which is
-- the loop's own bound. The rounds of the sweeper are recursion on fuel, and one unit of fuel more
-- than there are live orders is enough; those of the worker likewise, with the attempts that the
-- events of the inbox have left.
--
-- Not modelled: how chi parses a path, and the HTTP server, the JSON encoder, the loops of the tickers and the
-- shutdown, settings (internal/env), static files (internal/web), the check of tokens
-- (internal/auth/verifier.go), logs, the probes of latency and the metadata of a run of the benchmark, its
-- HTTP client and its processes, test support and the frontend: I/O, glue, or another language.
pub mod Base
pub mod Store
pub mod Queries
pub mod RateLimit
pub mod Session
pub mod Auth
pub mod Customers
pub mod Orders
pub mod Products
pub mod Payments
pub mod Ledger
pub mod Program
pub mod Bench
pub mod Readiness
pub mod Tests
