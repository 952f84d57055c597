-- ===== src/Api.antt =====
-- The routes of backend/src/apps/booking/api/v1. Path and body ids stand decoded, the caller is the
-- user that the token names, and what a route captures for analytics is left out.
pub mod Slots
pub mod Bookings
pub mod Recurring
pub mod Availability
pub mod Waitlist
pub mod Reviews
pub mod Disputes
