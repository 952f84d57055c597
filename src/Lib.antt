-- ===== src/Lib.antt =====
-- The core of the slot-booking backend: bookings of a resource's slots, from availability rules
-- through holds, quotes, validation, idempotent creation, recurring and group bookings,
-- cancellation with refunds and waitlist promotion to the background tasks and the notifications;
-- the tenants with their members, invitations and access groupings; and the WebSocket connections
-- and rooms.
--
-- Which file models what:
-- - Base: the library names and lemmas that all share; numbers, lists, and texts as f-strings and
--   `str` write them.
-- - Models: backend/src/apps/booking/models/booking.py and the notification rows of
--   backend/src/apps/notification/models. A table is the list of its rows (Models/Tables), read by
--   key, replaced by key, sorted by `order_by`.
-- - Effects: how a handler runs. An `Action` takes the world to a result and a world; an exception is a
--   result, and what was written before it stays in the session, unless a flush breaks a constraint
--   (`flush_unless`), which rolls it back. `run_request` is the session of
--   backend/src/db/session.py, which drops what was not committed. The world has the session's view of
--   the database, what is committed, the Redis cache if there is a client, a clock that is read time
--   by time, and the notifications handed to a channel.
-- - Booking: backend/src/apps/booking/services/booking_service.py. Policy has the refund tiers and the
--   constants, Quote `build_booking_quote`, Hold the holds in the cache, Validate
--   `validate_slot_booking_request`, Create `create_or_get_idempotent_booking`, Waitlist
--   `promote_waitlist_entries_for_slots`, Cancel `cancel_booking`, Generate
--   `generate_slots_for_resource`, Notices services/notification_service.py.
-- - Notifications: backend/src/apps/notification/services/notification.py, its devices in Devices.
-- - Tasks: backend/src/apps/booking/tasks.py.
-- - Finance: `verify_payment` of backend/src/apps/finance/api/v1/payment.py, over a parameter for the
--   provider's own verification.
-- - Api: the routes of backend/src/apps/booking/api/v1. Slots has slots.py, Bookings, with Lists and
--   Checkout, and Recurring bookings.py (a provider's initiation of a payment is an argument), and
--   Availability, Waitlist, Reviews and Disputes the files of their names.
-- - Tenancy: backend/src/apps/multitenancy. Rows has the tables, Session the session with the Casbin
--   enforcer of backend/src/apps/iam/casbin_enforcer.py, Access the helpers and the pages, and Tenants,
--   Lists, Members and Invitations the routes of api/v1/tenant.py. Mirror relates the rows to the
--   enforcer's groupings.
-- - Sockets: backend/src/apps/websocket. Messages has schemas/messages.py, Crypto crypto.py, Manager the
--   `ConnectionManager` of manager.py, and Handler the loop of a connection in api/v1/ws.py. A `dict` is
--   the list of its items (Base/Dict).
-- - Tests: a demonstration world and the theorems at concrete inputs.
--
-- A handler's guards, in the source's order, are `raise_if` and `or_raise`; `scalar_one_or_none`
-- fails on two rows as SQLAlchemy's does. A function that the source writes in one piece is cut
-- into named stages where a proof needs them.
--
-- Numbers: every `int` of these tables is a natural number, since the schemas bound them from below
-- by 0 or 1 and the code adds, or subtracts with `max(…, 0)`. Times count microseconds from
-- `datetime.min`, a Monday; the difference of two times is taken only after the code has compared
-- them.
--
-- Fuel: the two loops of `generate_slots_for_resource` run on fuel and answer `none` where it ends;
-- one round for each midnight before the end of the window, and 1441 rounds for a rule, which is at
-- most 1440 minutes long and cut into slots of a minute or more.
--
-- Parameters: `Services` (Effects/Outside) stands for code outside the repository: Redis, the float
-- product of a percentage, the key that the database gives a row, `int` of a text, and the zone
-- database. `CacheLaws` states what Redis documents. `Platform` (Tenancy/Session) stands for
-- Casbin's enforcer, whose calls may raise, for the `COMMIT`, which may fail, for `uuid4`, and for
-- whether the rows of a session can be read after a rollback, which an asynchronous session of
-- SQLAlchemy refuses; `EnforcerLaws` states what Casbin documents. `Transport` (Sockets/Messages) stands for AES-GCM, HKDF, base64, JSON and the sockets,
-- which may not take what is sent; `CipherLaws` states what the cipher and base64 promise.
--
-- Not modelled: the decoding and encoding of ids (a route's ids stand decoded), what the booking
-- routes capture for analytics, foreign keys, the rows' surrogate keys and creation times that no
-- query reads, what each channel does with a notification handed to it, and concurrency within a
-- request, since a handler runs in one session, and a call of the connection manager runs to its
-- end; the authentication of a connection, its heartbeat and the Redis listener. The payment
-- providers' services and the applications for identity, communications and observability are
-- outside the development.
pub mod Base
pub mod Models
pub mod Effects
pub mod Booking
pub mod Tasks
pub mod Notifications
pub mod Finance
pub mod Api
pub mod Tenancy
pub mod Sockets
mod Tests
