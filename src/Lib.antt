-- ===== src/Lib.antt =====
-- Verification of the server of the ERP: the exact arithmetic of money and quantities, the states of
-- orders and invoices, the transactions that draft, confirm and cancel an order and post an invoice, the
-- stock ledger, the chart of accounts, logins with their throttle, and requests performed once.
--
-- The program is an HTTP service over PostgreSQL. A request handler opens a unit of work under a scope
-- (tenant, company and user), and an operation runs inside that one database transaction: it reads
-- documents and master data through repositories, checks them, authorizes the actor, takes row locks in
-- a fixed order, writes, allocates a document number and appends an audit event. What throws rolls all of
-- it back.
--
-- Files and what they model (paths from the repository's root):
--   Decimal          apps/api/src/shared/decimal.ts: `parseDecimal`, `compare`, `add`, `subtract`,
--                    `multiply`, `round`, `toFixed`. A decimal is a whole number of units and a scale.
--                    Texts are lists of character codes; the pattern of the source is read by the
--                    functions `exec_pattern`, `match_digits` and `match_fraction`.
--   Billing.Arithmetic   apps/api/src/billing/invoice-arithmetic.ts: `billedAmounts`, `documentTotals`.
--   Statuses, Sales.Status, Billing.Status   the transition tables of
--                    apps/api/src/sales/sales-order-status.ts and billing/customer-invoice-status.ts.
--   Sales.DocumentNumber, Sales.Sequences   apps/api/src/shared/document-number.ts and
--                    sales/document-numbers.ts: printed numbers, provisioning and allocation.
--   Inventory.LockOrder, Inventory.Reservations   apps/api/src/inventory/lock-order.ts, reservations.ts.
--   Authorization    apps/api/src/authorization/permissions.ts and authorization.service.ts: `grantsIn`.
--   Sales.Confirm, Sales.Cancel   apps/api/src/sales/confirm-sales-order.ts, cancel-sales-order.ts.
--   Billing.Document, Billing.PostChecks, Billing.Post   apps/api/src/billing/post-customer-invoice.ts:
--                    the checks of the document alone, the checks against the tables, the operation.
--   SessionPolicy    apps/api/src/auth/session-policy.ts: session windows and `evaluateSession`.
--   SerializationRetry   apps/api/src/http/serialization-retry.ts: what each attempt meets is a function
--                    of its number; the budget of the loop is the three attempts of the source.
--   Inventory.Ledger, Database.Ledger   movements and balances of inventory.repository.ts, and what the
--                    ledger says is on hand.
--   Accounting, Database.Accounts   apps/api/src/accounting/chart-of-accounts.ts, posting-accounts.ts.
--   Authentication, Database.Identity   apps/api/src/auth/authentication.service.ts, session-token.ts.
--   Database.Throttle   apps/api/src/database/repositories/auth-throttle.repository.ts.
--   Idempotency, Idempotency.Canonical, Database.Idempotency   apps/api/src/http/idempotency.ts and its
--                    repository. Idempotency.Expiry: idempotency-expiry.service.ts, where each
--                    transaction of the sweep commits or leaves the tables as they were.
--   Sales.Draft, Database.SalesDrafts   apps/api/src/sales/sales-order.service.ts: `createDraftIn`,
--                    `updateDraftIn`.
--   Authorization.Assignment, Database.Roles   apps/api/src/authorization/role-provisioning.service.ts:
--                    `assignRole`, `removeRole`.
--   Database         apps/api/src/database/scope.ts and repositories/*.repository.ts: `Store` is the
--                    tables, a list of rows each; `Tx` is a function from tables to an error or to a
--                    value and new tables, so an error has no tables; a `SELECT`, `UPDATE` or `INSERT` is
--                    a function on lists (`select_first`, `update_where`, `++`). Database.Frame and
--                    Database.Isolation say which tables and rows a call leaves alone.
--   Failure, Result  the error classes, as values; message texts are left out.
--   Prelude          helpers: integers, lists, texts, a sort. Tests: runs at concrete inputs.
--
-- Numbers. `bigint` is a mathematical integer and so is ℤ here; a database `NUMERIC` is an exact decimal,
-- read from the text that the driver gives (Database.Numeric). Two recursions
-- run on fuel: the digits of `to_string`, where a number has at most one digit more than its value, and
-- the rounds of a retry, which are the three attempts of the source.
--
-- From outside: the clock and `randomUUID` are fields of `Session`; the identifiers drawn are counted in
-- the tables. A transaction has one moment, `now`, for the process and for the database. `Primitives`
-- holds argon2, the decoy hash, SHA-256, `randomBytes` and the lower cases; the fingerprint of a request
-- takes SHA-256 and the quoting of a JSON text. A transaction runs alone here: row locks and isolation
-- are the database's, and the model keeps the order in which the locks are taken.
--
-- Of the constraints that the migrations put on the tables these are modelled: that a session's idle window
-- ends within its lifetime (apps/api/migrations/0001_identity.sql), the length of a throttle key
-- (0002_auth_throttle.sql), the checks, keys and range of a stock movement
-- (0008_stock_ledger.sql, Database.MovementChecks), the policy that keeps live idempotency records from a
-- sweep (0011_idempotency_expiry.sql), the checks and unique keys of an account
-- (0013_chart_of_accounts.sql), and the keys of the statements with `ON CONFLICT`. The others are left out.
--
-- Not modelled: the web application, transport, the hashing of passwords, the running of migrations,
-- draft invoices, the seeding of roles, and the lists that screens read.
pub mod Prelude
pub mod Statuses
pub mod Failure
pub mod Result
pub mod Decimal
pub mod Database
pub mod Authorization
pub mod SessionPolicy
pub mod Authentication
pub mod Idempotency
pub mod SerializationRetry
pub mod Sales
pub mod Billing
pub mod Accounting
pub mod Inventory
pub mod Tests
