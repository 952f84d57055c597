-- ===== src/Booking.antt =====
-- backend/src/apps/booking/services/booking_service.py
pub mod Policy
pub mod Quote
pub mod Hold
pub mod Validate
pub mod Create
pub mod Waitlist
pub mod Cancel
pub mod Notices
pub mod Generate
