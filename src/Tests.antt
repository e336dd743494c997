-- ===== src/Tests.antt =====
-- Runs of the definitions at concrete inputs, and the theorems applied to such inputs.
pub mod Doubles
mod Wires
mod Connections
mod Db
mod Route
mod Helpers
mod Generator
mod Classes
mod Example
mod Streams
mod Talks
mod Golden
mod Routes
mod Searches
mod Awaits
