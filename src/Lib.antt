-- ===== src/Lib.antt =====
-- Sanmarino CRM: the transactional core of the API (apps/api).
--
-- The program is a NestJS service over PostgreSQL (Prisma). Its controllers hand each request to a
-- service of apps/api/src/modules, whose commands check the statuses of what they read and write rows.
-- A payment command runs in one database transaction, writes outbox records and an audit record as
-- well, and is protected against repetition by an idempotency record. The parts modelled here, and
-- how they interact:
--
--   Status, Transition   apps/api/src/modules/transactional: the statuses of shared/status.contract.ts
--                        as data types, the guard of shared/transition.guard.ts over a matrix
--                        (`can_transition`, `assert_transition`) and the matrices of deals, leads,
--                        orders, order control, delivery tasks, return requests and payments, and
--                        that of supplier requests in modules/supply
--   Errors               apps/api/src/common/errors: exceptions, codes, the normalisation of an
--                        exception by api-error.mapper.ts and the answer of api-exception.filter.ts
--   Action               a command as a function from the database to a result or an exception and
--                        a database; `transaction` is `$transaction`, which rolls back a throw
--   Table, Database      the tables of apps/api/prisma/schema.prisma with their unique constraints
--   Payments             apps/api/src/modules/payments/payments.service.ts, one module for each part:
--                        Normalize (payload checks), Digest (hash inputs), Idempotency
--                        (`acquire_idempotency`, `mark_idempotency_failed`), Overlay (the payment
--                        control of an order), Access (read-side/payments), Writes (creates, the
--                        frame of a command, replayed answers), Intake, Confirm, Reject and Refund
--                        (the four commands), Calls (a caller's sequence of commands)
--   Payments/Ledger      what the rows of payments, cash operations, finance entries and return
--                        requests say together, and proofs about it
--   Payments/Totality    when the transactions return
--   Payments/Replay      proofs about repeated, refused and failed commands
--   Orders               apps/api/src/modules/orders: order-shipment-status.policy.ts (Shipment), the
--                        reads (Read) and commands (Service) of orders.service.ts; Steps, Moves and
--                        Laws are proofs about the commands
--   Orders/Issue         fulfillments.service.ts: the stock issue of a fulfillment's items from the
--                        reservations of its order, the earliest first; Buckets, Laws and Enough are
--                        proofs about it
--   Orders/Fulfillments  fulfillments.service.ts: creation (Create), the movements of the stock issue
--                        (Stock), the confirmation of an execution with the order's status and its
--                        records (Confirm); Ledger, SameStock, Covered and Again are proofs about
--                        issues, Fits, Inserted and Created about creation
--   Orders/Returns       return-requests.service.ts: the frame of a command (Frame), the goods of a
--                        return (Goods), and its four commands (Create, Confirm, Process, Close);
--                        Laws, Moved, Anchor, Created, Confirmed and Closed are proofs about them
--   Supply               apps/api/src/modules/supply: the stock locks (Locks), reservations
--                        (Reservations), transfers to quarantine (Quarantine) and supplier requests
--                        (Requests) of supply.service.ts, with the rows that supply.repository.ts
--                        writes; Stock, Locks/Laws and Requests/Documented are proofs about them
--   Auth                 apps/api/src/modules/auth/auth.rate-limit.ts and its calls in `login` of
--                        auth.service.ts (RateLimit), which may be interleaved, since a login awaits
--                        its credentials; Laws and Locks are proofs about it
--   Base                 shared names, lists of rows, sums over them, equality tests
--   Tests                runs at concrete inputs
--
-- How the code is read. Identifiers, keys and free text are lists of UTF-16 units (`Text`). Amounts
-- are natural numbers of hundredths: the columns are decimals of two digits, and `normalize_amount`
-- rounds to them; the tolerance 0.005 of a comparison is 5 in tenths of a hundredth. The services hold
-- amounts as doubles. Where a difference of them is compared without a tolerance, in the payment
-- control, the comparison is a parameter (`Doubles`), with laws for the cases in which the rounding
-- does not matter while the amounts in hundredths stay below 2 ^ 46. Quantities are natural numbers
-- of millionths, with the tolerance 1; the columns keep three digits. Instants are milliseconds. The
-- database is a parameter: a `Table` has the operations of the Prisma client that the commands call,
-- with their documented meaning as laws over the rows; `Table.Memory` is a table that meets the laws.
-- SHA-256 is the parameter `digest`, and `toLowerCase` on all characters a parameter of the rate key. What the
-- clock says, and what other calls do to the idempotency records between the read and the insert of
-- `acquire_idempotency`, is a parameter of each call (`Surroundings`). The last read of a command
-- stands outside its `try`, since the source returns its promise without `await`. The due date of a
-- payment control reads the clock once more in the source; here it is the instant of the command.
-- There is no fuel: all recursion is on lists.
--
-- Parts meet in the tables: a fulfillment issues from the reservations that Supply makes, a return
-- request gives back what completed fulfillments have executed, and the refund of a payment needs a
-- processed return request. A query that sorts (`find_many_by`) answers the rows of the query that
-- does not, each as often. Texts of quantities are read as JavaScript's `Number` does, `none` being a
-- number that is negative or not finite, and have at most six digits after the point; the tolerance
-- 0.0005 is 500 millionths. The quantities of Supply are doubles (`Double`), which `toFixed(3)` rounds
-- by their exact value. The commands of Supply read the clock several times; each model has an instant
-- for the start and one for the end.
--
-- Not modelled: messages of exceptions, JSON, column widths, the rounding of doubles but for the
-- cases above, concurrency inside a transaction (the isolation of the database), the controllers
-- with their role guards, the purchase receipts and suppliers of Supply, the lists with filters and
-- paging, the services of finance, reconciliation, logistics, users, leads and integrations, the
-- worker and the web application.
pub mod Base
pub mod Errors
pub mod Action
pub mod Table
pub mod Status
pub mod Transition
pub mod Records
pub mod Database
pub mod Payments
pub mod Orders
pub mod Supply
pub mod Auth
mod Tests
