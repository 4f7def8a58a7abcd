-- ===== src/Lib.antt =====
-- Agri-Flow's backend (app/): booking of warehouse capacity, sale of seeds, purchase of grain, and
-- the accounts and permissions round them.
--
-- Parts, and the files that model them:
--   Prelude (Tests, Lists, Int, Decimal, Table, Text, Growth)  numbers, tables of rows and their sums
--   Errors, Exec    app/core/exceptions.py; code that raises, and actions on a session
--   Enums, Models   app/models/*.py: the rows, and the database `Db` as a record of tables
--   Session         app/core/database.py `get_db`, app/services/push_service.py's queue
--   Notify          app/services/notification_service.py, audit_service.py, event_service.py
--   Booking         app/services/booking_service.py `create_booking`, `update_booking_status`;
--                   Booking.Admit is the part of `create_booking` before its first write,
--                   Booking.Capacity the specification of the counters (`IsBooked`), and
--                   Booking.Life the state machine of a booking (`Step`, `Grown`)
--   Crops           app/services/crop_service.py: crops, and in Crops.Visits the farm visits;
--                   Crops.Visits.Owned specifies whose a visit is (`IsOwned`)
--   Warehouses      the rest of booking_service.py: warehouses, slots and stock
--   Purchase        app/services/purchase_service.py `purchase_seeds`, `update_purchase_status`;
--                   Purchase.Stock specifies a seed's counters (`IsHeld`)
--   Seeds           the rest of purchase_service.py: the catalogue and its links to warehouses
--   Market          app/services/market_rate_service.py; Market.Listed is about the listed rates
--                   against the price that a sale gets
--   Grain           app/services/grain_sale_service.py; Grain.Payout specifies what the ledger shows
--                   for a sale (`IsPaidOnce`), and Grain.Life the state machine of a sale
--   Ledger          app/services/ledger_service.py `mark_transaction_paid`
--   Permissions     app/core/dependencies.py
--   Auth, Otp       app/services/auth_service.py, otp_service.py
--   Accounts        the accounts that staff opens and changes: app/services/admin_service.py and
--                   farmer_service.py
--   Farmers         app/services/farmer_service.py: own profile and bank details; Farmers.Bank has the
--                   rule of one pending request (`IsReviewed`)
--   Inbox           app/services/notification_read_service.py: what is read and unread
--   Phone           app/schemas/farmer_app.py `normalize_phone` and `mask_account`
--   Progress        app/services/farmer_app_service.py: a crop's progress, and the label of a payment
--   Tickets         app/services/event_service.py's tickets, and who subscribes in api/v1/events.py
--   RateLimit       app/middleware/rate_limit.py with the breaker of app/core/redis.py
--   Pages           offsets and limits; Pages.Lists has the lists of the services
--   Api             app/api/v1: an endpoint round a service call, and sequences of requests;
--                   Api.Desk is bookings.py and warehouses.py, Api.Office is grain_sales.py,
--                   seed_purchases.py, transactions.py and the inspection of bookings.py,
--                   Api.Office.Shop the calls of seed_purchases.py alone, Api.Field is crops.py,
--                   farm_visits.py and farmer/crops.py, and Api.People farmers.py, the managers of
--                   admin.py and the bank request of farmer/profile.py
--   Tests           runs and instances on one small database
-- A request opens a session on the committed rows, checks the token and the body, and calls a
-- service; the service queries and writes the session's rows, and may raise. `get_db` then commits
-- the rows and sends the pushes, or rolls back both. A service's parts have the names of the source.
--
-- Conventions. A NUMERIC(14, 2) is a signed number of hundredths; values of more than two places
-- and the overflow of twelve digits are outside the model. Identifiers, dates, times of day and
-- instants are natural numbers. What the source draws by uuid4 or secrets is an argument, and a key
-- that is already taken is an integrity error. A query without an order returns rows in the order
-- of insertion, and the newest first is the reverse of it. A relationship with lazy="raise" is a
-- value that may be unloaded. Foreign keys are written out where the source does not read the row
-- before. The texts of messages, the JSON of audits and creation times but a rate's are left out. What was
-- written before a raise stays in the session, and the boundary rolls it back; events and cache
-- invalidations leave at once. In a sequence of requests each begins after the one before it has
-- ended; requests that overlap are outside the model, but for two redemptions of a ticket in Tickets.
-- The handlers of bookings, warehouses, slots, purchases, grain sales and the ledger lock the rows
-- that they change by FOR UPDATE, in an order that is not modelled; others, request_bank_change and
-- review_bank_change among them, take no lock. No definition uses fuel: every loop is over a list.
--
-- Not modelled: the JWT library, password hashing, SHA-256 and HMAC are parameters; searches,
-- dashboards and reports, the queries behind the farmer application's screens, uploads, weather, the
-- cache's contents, push delivery, migrations and scripts; agriflow-backend/ is an older copy of app/, and
-- farmer_flutter/ a client.
pub mod Prelude
pub mod Errors
pub mod Exec
pub mod Enums
pub mod Models
pub mod Session
pub mod Notify
pub mod Pages
pub mod Booking
pub mod Crops
pub mod Warehouses
pub mod Purchase
pub mod Seeds
pub mod Market
pub mod Grain
pub mod Ledger
pub mod Permissions
pub mod Auth
pub mod Otp
pub mod Accounts
pub mod Farmers
pub mod RateLimit
pub mod Inbox
pub mod Phone
pub mod Progress
pub mod Tests
pub mod Tickets
pub mod Api
