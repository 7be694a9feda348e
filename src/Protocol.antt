-- ===== src/Protocol.antt =====
-- mtserver/src/serialization.c: the packages of the calls, made and taken apart.
pub mod Serialize
pub mod Deserialize
pub mod Trim
pub mod Sendable
pub mod Strings
pub mod PathNumber
pub mod Paths
pub mod Numbers
