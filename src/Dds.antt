-- ===== src/Dds.antt =====
-- The static DDS entities: typed writers and readers over the RTPS protocol.
pub mod Entities
pub mod DataWriter
pub mod DataReader
pub mod Delivery
pub mod Control
pub mod Reply
pub mod Repair
pub mod Resend
pub mod Testing
mod Tests
