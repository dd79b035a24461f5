-- ===== src/Llrp/Codec.antt =====
-- The parameters and messages of the generated codec, by subject.
pub mod TvScalars
pub mod Scalars
pub mod Identities
pub mod Tables
pub mod Capabilities
pub mod Frequencies
pub mod Regulatory
pub mod Filters
pub mod Inventory
pub mod InventoryCommands
pub mod Antennas
pub mod Triggers
pub mod BoundarySpecs
pub mod StopTriggers
pub mod Contents
pub mod ReportSpecs
pub mod InventorySpecs
pub mod RoSpecs
pub mod OpSpecs
pub mod BlockOpSpecs
pub mod AccessSpecs
pub mod ClientRequests
pub mod OpResults
pub mod TagReports
pub mod Reports
pub mod Events
pub mod Notifications
pub mod ReplyMessages
pub mod RequestMessages
pub mod ReaderConfig
pub mod SetReaderConfig
pub mod RoundTrip
pub mod Endless
pub mod Sightings
pub mod Ends
mod Examples
