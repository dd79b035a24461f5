-- ===== src/Llrp.antt =====
-- The protocol package, pkg/llrp: its bytes, message types and headers.
pub mod Bytes
pub mod MessageTypes
pub mod Header
pub mod Messages
pub mod Params
pub mod Fields
pub mod ParamTypes
pub mod Status
pub mod Codec
pub mod Replies
pub mod Requests
pub mod Client
pub mod Incoming
pub mod Exchange
mod Examples
