-- ===== src/Rtps.antt =====
-- The RTPS layer: identifiers, the reliability protocol's messages and state machines.
pub mod Types
pub mod Wire
pub mod Router
pub mod SequenceSet
pub mod ControlCount
pub mod Messages
pub mod Codec
pub mod DataMessage
pub mod Actions
pub mod Sent
pub mod Writer
pub mod Reader
pub mod Trace
pub mod Exchange
pub mod Recovery
pub mod Participants
pub mod Testing
mod Tests
