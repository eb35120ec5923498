-- ===== src/Booking.antt =====
-- app/services/booking_service.py.
pub mod Slot
pub mod Seats
pub mod Conflicts
pub mod Create
pub mod Exclusive
pub mod Cancel
pub mod History
pub mod Race
pub mod Calendar
pub mod Slots
pub mod Queries
