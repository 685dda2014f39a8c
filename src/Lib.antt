-- ===== src/Lib.antt =====
-- Verification library of the GaonOne backend (backend/app, FastAPI and SQLAlchemy): the cart and the
-- checkout that make an order, and its money and custody from the payment to the delivery, the
-- return, or the refund.
--
-- The database is one record of tables (Model/Db), each a list of rows; rows, enumerations and keys are
-- in Model. A request is an action on the database (Session/Monad): it returns a value and the new
-- database, or an error, and an error rolls back. A handler that commits and then raises returns
-- the error as a value. Writes of orders and deliveries run the audit triggers of
-- backend/alembic/versions/0007_delivery_operations.py (Session/Store). Each action runs alone: the
-- code locks the rows that it changes, but for the handlers of the cart, which lock nothing, so that
-- for them requests that overlap are not modelled. The refund dispatch, which commits before and
-- after the provider's call, is two actions (claim_refund and settle_refund). The session does not
-- flush on a query (backend/app/db/session.py), which shows where a capture is applied (Payments).
--
-- Parts, each with its proofs in child modules:
--   Prelude: library names, Boolean tests, tables as lists, signed integers.
--   Capabilities: backend/app/core/capabilities.py and the guards of backend/app/api/deps.py.
--   Transitions: backend/app/services/order_transitions.py.
--   Effects: backend/app/services/audit.py, notifications.py and governance_audit.py.
--   Stock: backend/app/services/stock.py.
--   Settlements: backend/app/services/settlements.py.
--   Refunds: backend/app/services/refunds.py, the dispatch in Refunds/Dispatch, and
--     backend/app/api/v1/routes/refunds.py in Refunds/Administration.
--   StoreHours: backend/app/services/store_hours.py.
--   Pricing: backend/app/services/pricing.py.
--   Checkout: backend/app/api/v1/routes/checkout.py, the quote in Checkout/Quote and the checkout in
--     Checkout/Placing.
--   Carts: the cart of backend/app/api/v1/routes/orders.py.
--   Orders: backend/app/api/v1/routes/order_mutations.py.
--   Riders: claim_delivery and update_delivery_status of backend/app/api/v1/routes/orders.py.
--   Deliveries: backend/app/api/v1/routes/delivery_operations.py, with the one-time code in
--     Deliveries/Proofs, the cash and delivery_financials.py in Deliveries/Completion.
--   Payments: backend/app/api/v1/routes/payment_hardening.py, the webhook in Payments/Webhook, and the
--     intent of payments.py in Payments/Intent.
--   Assignment: auto_assign_delivery of backend/app/api/v1/routes/dispatch.py and
--     backend/app/services/auto_dispatch.py.
--   Catalogue: backend/app/api/v1/routes/commerce.py, the listings in Catalogue/Shelf.
--   Support: backend/app/api/v1/routes/support.py, tickets in Support/Tickets, messages in
--     Support/Messages, and backend/app/services/support_triage.py in Support/Triage.
--   RateLimit: backend/app/services/rate_limit.py.
--   Otp: backend/app/services/otp.py, on the counters of RateLimit.
--   Examples: the theorems at concrete inputs.
-- Carts and Checkout call Pricing and StoreHours; Orders, Deliveries and Payments call Stock, Refunds and
-- Settlements; these call Transitions, Effects and Session.
--
-- Names are the source's. Keys (UUID) and provider identifiers are numbers, money is a number of paise,
-- a moment a number of seconds; the clock is an argument. Numbers have no bound: the columns are
-- `Numeric(10, 2)` and the model adds no arithmetic that could leave that range. No function needs
-- fuel: every loop goes over a list.
--
-- Parameters: the payment provider's replies, the checks of signatures, the parsed body of a webhook, the
-- rate limiter's answer in a handler, the random code and its digest, the query for the nearest rider, the
-- next delivery of the worker's queue, the PostGIS test whether a point lies in a service area, the
-- time of day, the default delivery fee, the number of a new order, lower-casing, and Redis
-- with the digest of its keys. Not modelled: display texts, metadata of
-- the audit trail, truncation of long texts, the races that caught integrity errors handle, reads,
-- sign-in, the presence of riders, listings of tickets, the opening of stores, categories, products of a
-- merchant's own name, media and the clients.
pub mod Prelude
pub mod Model
pub mod Session
pub mod Capabilities
pub mod Transitions
pub mod Effects
pub mod Stock
pub mod Settlements
pub mod Refunds
pub mod StoreHours
pub mod Pricing
pub mod Checkout
pub mod Carts
pub mod Orders
pub mod Support
pub mod Catalogue
pub mod Riders
pub mod Deliveries
pub mod Payments
pub mod Assignment
pub mod RateLimit
pub mod Otp
pub mod Examples
