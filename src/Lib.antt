-- ===== src/Lib.antt =====
-- The billing core of the platform: what an order costs, how a payment settles it, and what the
-- ledger records, over the tables that the services share.
--
-- The program is a Go back end. A customer orders plans; the order is priced from the plans alone
-- (commerce/types.go); a gateway reports the payment through a callback; the callback settles the
-- payment in one database transaction, which marks the order and its invoice paid, starts a
-- subscription for each line, posts a balanced pair of ledger entries and records events for other
-- services. A sweep then renews the subscriptions whose period has ended from the customer's wallet,
-- or moves them to past due, suspended and expired. Long-running work on machines is a row of the
-- operation system, which a worker claims and runs, and retries after a back-off. Sources below are paths under backend/internal.
--
--   Prelude       native numbers, ℤ over them, int64 with wrap-around, lists
--   Errors        the sentinel errors of all parts, and results
--   Money         money/money.go: NewCurrency, New, Zero, Add, Sub, Negate, Times
--   Calendar      Go's time.Time in UTC, as a civil date and the nanosecond of the day
--   Numbers       commerce/types.go: newNumber
--   Ledger        ledger/ledger.go: Entry, Transaction, Verify, Transaction.Verify
--   Database      actions on tables: statements, transactions, identifiers that are drawn
--   Rows          WHERE over the rows of a table: selections, updates and counts
--   Machine       lives of a status in a table of moves
--   Commerce.States      commerce/state.go and the table of commerce/subscription.go
--   Commerce.Cycle       commerce/subscription.go: AddBillingCycle and the deadlines
--   Commerce.Types       the records of commerce/types.go and commerce/subscription.go
--   Commerce.Orders      commerce/types.go: NewOrderLine, NewOrder, ValidateDecimal
--   Commerce.Tables      the rows behind db/sqlcgen
--   Commerce.Sql         db/sqlcgen/commerce.sql.go and subscription.sql.go, one function a statement
--   Commerce.Store       storage/commerce: the store over the statements, and ledger/poster.go
--   Commerce.Gateway     payment/payment.go: the port of a payment gateway
--   Commerce.Activation  commerce/subscription_service.go: activateSubscriptionsFromOrder
--   Commerce.Checkout    commerce/service.go: CreateOrder, invoiceItemsFor, StartPayment
--   Commerce.Settlement  commerce/service.go: Settle, settle, fail
--   Commerce.Renewal     commerce/subscription_service.go: transitionLive, openRenewalInvoice,
--                        payRenewalInvoice, RequestCancellation
--   Commerce.Sweep       commerce/subscription_service.go: Sweep, sweepOne, RenewNow, Terminate
--   Operation            operation/operation.go: the machine, BackoffFor, ProgressOf
--   Operation.Tables     backend/migrations/0007_operations.up.sql: the rows and their CHECKs
--   Operation.Sql        db/sqlcgen/operations.sql.go, one function a statement
--   Operation.Store      storage/operation/store.go: the store over the statements
--   Operation.Engine     operation/service.go: Enqueue, Tick, execute, classify, and the handle of a run
--   Operation.Evolution  how the table of operations changes under calls and ticks
--   Operation.Requests, .Attempts, .Failures, .Cancellation, .Progress, .Backoff, .Machine
--                        the theorems on each
--   Infra                infra/infra.go: FreeCapacity, SupportsSpec, SelectNode
--   Capacity.Sql         the tables nodes and resource_reservations, and the statements of
--                        db/sqlcgen/infra.sql.go that move capacity
--   Capacity.Store       storage/infra: Reserve, Commit, Release, and the calls of reservation.go
--   Capacity.Books       the counters of the nodes against their receipts, under every call
--   Capacity.Promises    a promise that is on record
--   Identity             identity/service.go: logins, logouts, CurrentUser, CurrentAdmin;
--                        identity/session.go, identity/totp.go; redisx/session.go over the commands of
--                        Redis; storage/identity/directory.go over db/sqlcgen/identity.sql.go
--   Identity.Stored, .Logins, .Current
--                        the theorems on sessions that are stored, logins, and sessions that are read
--
-- State. A World is the tables, a schedule of faults and the number of identifiers drawn. A call is
-- a function from a world to an outcome, and an outcome that failed keeps the world it reached, so
-- a statement that ran before a failure stays written unless a transaction takes it back. Each
-- statement reads one fault off the schedule: true makes it fail before it runs. BEGIN and COMMIT
-- are statements too. A schedule that is used up has no more faults.
--
-- Bounds. An int64 is an integer with its wrap-around written out; a bigint column refuses a value
-- it cannot hold. Dates have no upper bound. Every loop of the source is structural recursion on
-- its list, so there is no fuel. UUIDs are numbers, and uuid.New is a parameter: a sequence of
-- identifiers of which nothing is assumed. A gateway is a parameter too,
-- and so is the runner of an operation: one attempt, as a function on the world. The arithmetic of
-- float64 and the digest of an idempotency key are parameters. Capacity is counted in natural numbers,
-- cores in hundredths: the CHECKs of the tables keep counters and amounts from being negative. In
-- Identity the hashing of passwords, HMAC, base32, JSON and random tokens are parameters, and the
-- service, the store of sessions and Redis read one clock.
--
-- Not modelled. Two transactions that overlap: calls run one after the other, and a statement is
-- one step. Columns that no modelled code reads (created_at and updated_at of most rows, the JSON
-- of snapshots beyond its fields), the text of error messages, and the base32 text of numbers.
-- The lines of an order are read in the order of the table, the LIMIT of the sweep of subscriptions
-- is left out, and what a gateway sends is appended to a log in place of a column of the payment.
-- In the operation system a tick is one step, so the calls of other workers fall between ticks, and
-- the lists that the reconciler reads are left out. The outbox publisher,
-- Register, the format of password hashes, the attempt limits, the runners of provisioning and the
-- reconciler are not modelled; HTTP, start-up and the adapters to other systems are input and output
-- around the services.
pub mod Prelude
pub mod Errors
pub mod Money
pub mod Calendar
pub mod Numbers
pub mod Database
pub mod Ledger
pub mod Commerce
pub mod Capacity
pub mod Identity
pub mod Infra
pub mod Machine
pub mod Operation
pub mod Rows
