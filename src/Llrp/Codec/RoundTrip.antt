-- ===== src/Llrp/Codec/RoundTrip.antt =====
-- Parameters and messages of the generated codec that were written are read back.
pub mod Scalars
pub mod Identities
pub mod Filters
pub mod Inventory
pub mod InventoryCommands
pub mod Antennas
pub mod Triggers
pub mod BoundarySpecs
pub mod StopTriggers
pub mod Contents
pub mod ReportSpecs
pub mod InventorySpecs
pub mod RoSpecs
pub mod RequestMessages
