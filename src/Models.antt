-- ===== src/Models.antt =====
-- backend/src/apps/booking/models/booking.py, and the notification row that the booking code adds:
-- the enumerations, the rows, and the database as the lists of its rows. An `int` is a natural
-- number, a `datetime` counts microseconds from `datetime.min`.
mod Status
mod Rows
mod Tables
pub mod Laws
pub mod Windows
pub mod Sweep
pub use Status.*
pub use Rows.*
pub use Tables.*
