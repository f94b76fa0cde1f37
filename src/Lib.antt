-- ===== src/Lib.antt =====
-- A model of the POS service of `pos_service`: what a till terminal asks of it, what it stores, and
-- what it asks of Sentry (stock and orders), Windcave (cards) and Fabric (sales orders).
--
-- Parts and files. `Prelude` holds shared names, integers, lists and texts; `Table` a database table
-- as a list of rows with a key (`find` is `db.get`, `put` the commit of a changed row, `insert` of a
-- new one). `Model` holds the rows of `pos_service/models.py`, the wire types of
-- `pos_service/clients`, the read part of `pos_service/config.py`, and the store with a log of
-- outgoing calls. A handler is an `Action`: it takes the store and gives a result or an error together
-- with the store, so what was committed before an error stays. `Till` is
-- `pos_service/services/till.py`; `Outbox` is `pos_service/services/fabric_outbox.py` with the retry
-- of `pos_service/routes/admin.py`; `Checkout` is `pos_service/services/checkout.py` (`Pricing`:
-- `start_checkout`; `Payment`: the charges and the cancel; `Poll`: the background poll); `Refund` is
-- `pos_service/services/refund.py` (`Start`, `Payment` and `Poll` as for a sale); `Reconcile` is
-- `pos_service/services/reconciliation.py`; `Routes` is the endpoints of
-- `pos_service/routes/checkout.py` and `pos_service/routes/refunds.py`. `Routes.Reported` is about the
-- status reads of the two services. `Users` is `pos_service/auth.py` (sessions, passwords, the two
-- dependencies), `Users.Login` the endpoints of `pos_service/routes/auth.py` and `Users.Admin` those
-- of `pos_service/routes/admin_users.py`. `Prices` is the upsert of `pos_service/services/pricing.py`
-- and of `pos_service/services/fabric_price_sync.py`: `Prices.Decimal` and `Prices.Rows` check a row
-- of the uploaded table, `Prices.Import` is `import_csv`, `Prices.Sync` is `sync_once`,
-- `Prices.Listing` the reads with those of `pos_service/routes/prices.py`. `Clients` is the retry loop
-- that `pos_service/clients/windcave.py` and `pos_service/clients/sentry.py` have in common,
-- `Clients.Windcave` the cancel, the amounts and the mock replies of the first, `Clients.Terminal` its
-- requests and the reading of their responses, `Clients.Sentry` the calls of the second. `Receipt` is
-- `pos_service/services/receipt.py`: `Receipt.Format` the text, `Receipt.Status` the status views of
-- `checkout.py` and `refund.py` that print it. `Reports` is the listings: `Reports.Tills` those of
-- `pos_service/routes/till.py`, `Reports.Pdf` its endpoints that open and close a till and serve the
-- stored report, `Reports.Transactions` the listings of `pos_service/routes/admin.py`. Sales and
-- refunds meet the till in `attribute_transaction` and the outbox in `enqueue`, in one commit with the
-- transaction.
--
-- Proofs about the store go through `Commits`: it describes what a handler does as a sequence of six
-- kinds of writes (a logged call, a till tally, a changed row, a row that is done together with its
-- outbox entry, an outbox entry that moves on, and a new row), so that an invariant has one case for
-- each kind. `Commits.Lifecycle` has the table of allowed steps of a status, `Commits.Books` the
-- invariant of the transactions and the outbox, `Commits.Kept` its preservation, `Commits.Tills` that
-- of the till sessions, `Commits.History` what no write undoes, `Commits.Sequence` how sequences are
-- put together, and `Commits.Posts` the writes of the outbox. `Checkout.Moves`, `Checkout.Handlers`,
-- `Checkout.Started`, `Refund.Moves`, `Refund.Handlers`, `Refund.Card`, `Reconcile.Moves`,
-- `Reconcile.Loops` and `Reconcile.Runs` take the handlers apart, `Reconcile.Reported` follows what
-- the retry loops report, and `Routes.Invariant` puts the results together for any sequence of
-- requests. `Samples` and the modules named `Tests` hold concrete runs.
--
-- The users have an invariant of their own: `Users.Found` holds the lemmas on tokens and rows that are
-- found, `Users.Invariant` and `Users.Managed` the invariant and its preservation by each operation,
-- `Users.History` any sequence of requests, and `Users.Access`, `Users.Locks` and `Users.Forced` what
-- a login, a deactivation and a reset do. `Prices.Refines` relates the price table to a map from SKUs
-- to prices and `Prices.Stamps` to the times of the prices, `Prices.Synced` is about the outcome of a
-- sync, `Prices.Accounts` follows each row of an import, `Prices.HalfUp` is about the rounding.
-- `Clients.Attempts` follows the retry loop, `Clients.Replies` the replies of Sentry's calls,
-- `Clients.Readings` what a charge reads from the terminal's response, `Clients.Amounts` and
-- `Clients.Numerals` the amounts that are printed and read. `Receipt.Layout` and `Receipt.Width` are
-- about the width of a line, `Reports.Served` and `Reports.Shifts` about the stored report,
-- `Reports.Listed` about the pages.
--
-- Modelling choices. Amounts are unbounded integers, as in Python; times are whole seconds and the
-- poll counts milliseconds. The answers of Sentry and Windcave are functions of the request
-- (`Services`), which may return, raise the client's own error, or raise anything else; the answer of
-- Fabric is a parameter of the drain. The clock and the uuids come with each request (`Env`). A JSON
-- column holds the value that it encodes. The tax rate is a ratio by a power of ten, as
-- `Decimal(str(rate))` reads it. The poll loop runs on fuel, one unit more than the deadline's
-- milliseconds, which is enough for a positive interval. A handler runs whole, so two requests do not
-- interleave at an await. The hashing of passwords, the HTTP library, the parsers of XML and JSON, the
-- file system and the drawing of the report are parameters; tokens and salts come with the request. An
-- import takes the rows that the csv reader yields and a sync the catalog that Fabric returns. The
-- retry loop is structural on the attempts that are left. The batches of a sync run on one unit of
-- fuel for each row, which is enough since a batch has at least one; the digits of a number run on the
-- number itself as fuel, which is no less than the count of its digits. Numbers in Windcave's
-- responses and in the price cells are read for ASCII digits; amounts are formatted exactly, as the
-- floats of the code are below 2^50 cents.
--
-- Not modelled: the display, button, receipt and timeout fields of Windcave's response, which no
-- service reads; Sentry's availability lookup, the Fabric client, the endless loops that call a drain,
-- a reconciliation or a sync at intervals, the drawing of the report in
-- `pos_service/services/till_pdf.py` (calls of a PDF library), start-up and configuration, the browser
-- client, the print agent and the migrations.
pub mod Prelude
pub mod Table
pub mod Model
pub mod Till
pub mod Outbox
pub mod Checkout
pub mod Refund
pub mod Reconcile
pub mod Commits
pub mod Routes
pub mod Samples
pub mod Users
pub mod Clients
pub mod Receipt
pub mod Prices
pub mod Reports
