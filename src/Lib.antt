-- ===== src/Lib.antt =====
-- A model of the Wi-Fi voucher shop (packages/database, packages/network, packages/payments and the
-- helpers of apps), with the theorems that make its sales, payments, messages and router tools correct.
--
-- The program sells prepaid Wi-Fi codes. A batch of vouchers is minted from a package; a voucher is
-- reserved and sold at the counter, sold in bulk when a batch is printed, or reserved by a checkout
-- and sold when a mobile-money provider reports the payment. The services are functions on the tables
-- of one database; they meet in the stock, in the sales and in the payment intents. Around them stand
-- the adapters of the providers, the outbox that mails and texts are delivered from, the tools that
-- read and change the shop's router, the free offers, and the accounts of the staff.
--
-- The files:
-- - Base and its children: Boolean tests, lists, stable sorting, rows of a table, texts, values of
--   JSON, and the result of a service (`Problem`, `requireValue` and `tx` of
--   packages/database/src/index.ts).
-- - Crypto, Crypto/Codes: packages/database/src/crypto.ts, codes as they are drawn, printed and typed.
-- - Shop/State, Shop/Tables: the tables of supabase/migrations as records in lists, the audit log, and
--   the triggers and tests that several services share.
-- - Shop/Stock: `generateBatch` of packages/database/src/sales.ts; Shop/Counter: its `reserve`, `sell`,
--   `reverse`, `voidVoucher`, `issueBatch` and `reveal`; Shop/Booking: the statements that both the
--   counter and the checkout run.
-- - Shop/Checkout: the transactions of packages/database/src/purchases.ts (`release`, `settle`, the
--   first part of `start`); Shop/Checkout/Handlers: `start`, `webhook`, `status`, `expireStale` and
--   `forwardTarget`.
-- - Shop/Radius: `authorizeRadius` of packages/database/src/radius-access.ts for a voucher's code, `mac`
--   of packages/database/src/access.ts, and packages/database/src/record-accounting.ts.
-- - Shop/Ledger: the invariant of the sales tables; the files named Soundness, Settlement, Safety,
--   Keeps and Printing are about the services that keep it, and Shop/Services puts them together as a
--   step relation. The files named Repeats, Reprint, Settled, Callbacks, Entry and Reports are about
--   calls that come twice or in another order.
-- - Payments/Azam and its children: packages/payments/src/azam.provider.ts, from the number and the
--   sign-in to the checkout, the callback and the event; Payments/Azam/Event puts it before the
--   `webhook` of the purchases. Payments/Snippe: snippe.provider.ts beside it; Payments/Choice:
--   `paymentProvider` of packages/payments/src/index.ts.
-- - Notifications/Outbox: the deliveries of packages/database/src/notifications.ts and the lane of
--   apps/worker/src/index.ts; Notifications/Progress and Notifications/Lease are about them.
-- - Network/Offers: packages/network/src/offer.ts, the windows of free offers, what may be entered for
--   one, and the names of its sessions; FreeOffers: packages/database/src/offers.ts on top of it.
-- - Network/Cidr, Network/Discovery, Network/Diagnostics, Network/Bindings: cidr.ts, discovery.ts,
--   diagnostics.ts and bindings.ts of packages/network/src.
-- - Vip: packages/database/src/vip.ts; Pages: packages/network/src/files.ts and
--   packages/database/src/router-files.ts; Sites: packages/database/src/network.ts; Accounts:
--   packages/database/src/staff.ts.
-- - Csv: apps/web/src/lib/csv.ts, and the export of vouchers of apps/api/src/app.ts that it reads;
--   Durations: apps/web/src/lib/duration.ts.
-- - Tests and its children: the theorems at concrete inputs.
--
-- Conventions. A uuid is a number drawn from `next_id`; a timestamp is a number of milliseconds; a
-- text is a list of its code units, with upper and lower case for ASCII. A service takes the shop and
-- answers a `Result`, a `Reply` or an `Answer`, where an error has its message and, where it has one,
-- its status; one that runs in `tx` keeps the old tables when it fails, and a handler that calls out
-- between transactions answers the tables in either case. What node:crypto computes is the record
-- `Cipher` or a function; random draws, clocks and what a payment provider answers are arguments, and
-- `locked` says which rows other transactions hold under `for update skip locked`. The services
-- outside the program (the gateway of payments, the router's REST interface and its files, the
-- authentication service and the mail service) are functions on a state of their own, which the
-- definitions pass on. One request is answered at a time, and in the adapters time passes only while a
-- request is answered. A delivery of the outbox may throw after it took its row (`crashed`), by what a
-- service answers or by a query that fails; elsewhere the queries themselves do not fail. There is one
-- site, so the conditions on `site_id` are left out. Unique constraints and triggers are failures with status 500. The amount of a
-- payment event is the amount already rounded, and no amount is negative. `Number` of a prefix reads
-- decimal digits and the empty text. The names that every JavaScript object inherits are left out
-- where a text is looked up, and a body that is `null` is refused like one without fields. Columns
-- that no modelled service reads, the details of audit rows and the payload of events are left out,
-- and the status page's flag that an SMS was queued. A callback's body that cannot be parsed is left
-- out: it stops `webhook` before anything is stored.
--
-- Fuel. The loop of `offerNextStart` over the days runs on one round for every millisecond before the
-- offer's end, more than its days; with that the loop reaches the end of the offer. The worker's lane
-- makes five deliveries in a turn, as the worker does; every other loop is on the structure of a list.
--
-- Not modelled: the pages (Svelte), the HTTP layer and its schemas, the clients and templates of
-- messages, the text of a tunnel's plan (packages/network/src/wireguard-plan.ts), the router console,
-- the customers, the catalogue, the relay of music and the reports, check constraints on columns, and
-- what concurrent requests share in memory: the sign-in that waiting buyers share and the lock that
-- lets one change of the router run at a time.

pub mod Accounts
pub mod Base
pub mod Crypto
pub mod Csv
pub mod Durations
pub mod FreeOffers
pub mod Network
pub mod Notifications
pub mod Pages
pub mod Payments
pub mod Shop
pub mod Sites
pub mod Tests
pub mod Vip
