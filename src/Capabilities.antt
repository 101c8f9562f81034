-- ===== src/Capabilities.antt =====
-- packages/capabilities/src: grants, validation policies, and what they decide. The parts are below.
pub mod Types
pub mod Policy
pub mod Activity
pub mod Codec
pub mod Reducer
pub mod Recovery
pub mod Admission
mod Tests
