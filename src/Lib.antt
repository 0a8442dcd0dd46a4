-- ===== src/Lib.antt =====
-- The money paths of the ACRev360 backend: how a council's revenue is priced, billed, collected,
-- chased, reconciled and shared out.
--
-- The program is a Django project. Its services (apps/*/services.py) are functions on the database,
-- each in one transaction; the views around them check permissions and parse requests. Here the
-- database is one value, `Db` of Store, with a table for each model; a service is a function from it
-- to a result and a new database, or to an error, which carries no database because its transaction
-- is rolled back. `Env` holds the clock and what the database's own arithmetic does: `column` is
-- the rounding of a value to a column of two decimals, and `IsRounding` what is relied on of it.
--
-- Parts, and the files that model them:
--   Base         tests, lists, keyed tables and signed amounts that all parts share
--   Models       the rows of apps/*/models.py, one file an app: the columns that the services read
--   Store        the database, the environment, the errors, and apps/audit/services.py
--   Billing      apps/billing/services.py: Pricing is create_draft_assessment, Recompute is
--                recompute_bill, Lines is add_, update_ and delete_bill_line, and Issue is issue_bill
--                (Merge gathers and merges the charges, Arrears consolidates open bills, Run composes;
--                Frame, Steady and Invariants say what an issue keeps); History is all_arrears_lines
--                of apps/billing/models.py
--   Payments     apps/payments/services.py: Fifo is _allocate_fifo, Post is post_payment, Reverse is
--                reverse_payment; Ledger is the invariant of the money tables, Effects and Outcomes
--                what a call does and when it is refused, Frame the tables it leaves alone, and Request
--                what PostPaymentSerializer of apps/payments/api/serializers.py validates
--   Enforcement  apps/enforcement/services.py: Close is close_debt_case_for_bill, which payments and
--                consolidation call, Cases the refresh and the escalation, and Ladder
--                repeated escalations
--   Revenue      apps/revenue/services.py: Rates and Bands are the versioned prices that Pricing reads
--   Settlements  apps/settlements/services.py (Compute, with its Terms), and the status change
--                of apps/settlements/api/views.py (Status)
--   Reconciliation  apps/reconciliation/services.py: Match is the matching of a bank feed with the
--                payments, Run the daily run, with the resolution of an exception from api/views.py
--                (Covered tells of the tables which rows of a feed a payment covers)
--   Registry     apps/registry: Payers is create_payer of services.py, and Portal the portal of the
--                ratepayers of api/views.py with accessible_payer_ids of services.py
--                (Single, Grants and Revocation are proved of it)
--   Channels     apps/channels: Adapters is adapters.py, Clients the signed keys of services.py, and
--                Receive the webhook and the settlement file of api/views.py; Tenants is the council of
--                a bill reference, of apps/tenancy/context.py. They post through Payments
--   Fieldops     apps/fieldops: Replay is the replay of offline records of services.py with the batch
--                of api/views.py, which posts through Payments and enumerates through Registry;
--                Worklist is get_worklist
--   Api          the handlers that write, of apps/billing/api/views.py (Bills) and of
--                apps/payments/api/views.py (Payments), with their answers
--   Common       apps/common/scoping.py: portfolio_filter, which decides what payers a user sees
--   Tests        a sample council, and the theorems applied to it
--
-- Conventions: money is a natural number of ten-thousandths of a naira and a quantity one of
-- hundredths, so that a price times a quantity stays exact before it is stored; the serializers
-- refuse negative amounts. Days are natural numbers. A query without an order reads rows in the order
-- of their ids. Every loop is over a list, by recursion on it, but for all_arrears_lines, which follows
-- superseded bills: it takes fuel, and fuel above the bill's id is enough. Subtraction is
-- the truncated one only where the code guards it or takes a maximum with 0; the payer's credit and
-- a bill's balance are signed. What Python and its libraries do with a value of a request is a
-- parameter: Decimal, str and strip (`Python` of Channels.Adapters), hmac and the decryption of a
-- key's secret (`Crypto` of Channels.Clients), the database's comparison of emails without their case
-- (`iexact` of Registry.Portal), and the printing of a reference (`print_ref` of `Env`).
-- An `err` of a service is an exception, behind which its own transaction is rolled back. A request
-- that raises is answered with 500, and the middleware commits what it had written outside such a
-- transaction: `Committed` of Store tells it for the settlement file and the batch of offline records.
-- An amount is rounded to two decimals when a feed row or a payment is created, and a text that is too
-- long for the column of a bank reference is refused by the database.
--
-- Not modelled: row locks and the interleaving of transactions (a service gets the caller's copy of
-- a row, which may be older than the stored one), random tokens, notes, time stamps of updates, the
-- texts in audit details, the read-only views but those of the ratepayers' portal, and the views'
-- query-string filters and role checks (but the portal's own). The USSD menu is not modelled, nor
-- decimals of a notified amount beyond the fourth; the payment object that the code still holds when
-- it allocates has the decimals that its row has lost, where the model's has the row's amount. The
-- width of the money columns is not modelled, but for the amounts of notifications.
pub mod Base
pub mod Models
pub mod Store
pub mod Billing
pub mod Channels
pub mod Fieldops
pub mod Api
pub mod Enforcement
pub mod Payments
pub mod Settlements
pub mod Revenue
pub mod Reconciliation
pub mod Registry
pub mod Common
pub mod Tests
