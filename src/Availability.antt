-- ===== src/Availability.antt =====
-- src/availability.rs and src/availability/: the data of the availability API, its errors and its
-- handlers.
pub mod Payload
pub mod QueryData
