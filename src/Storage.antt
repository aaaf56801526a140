-- ===== src/Storage.antt =====
-- app/storage: the data model, the contract, and the in-memory and the file backend.
pub mod Model
pub mod Codes
pub mod SessionIds
pub mod Contract
pub mod Parsing
pub mod Codec
pub mod File
pub mod Memory
mod Examples
