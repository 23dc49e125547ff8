-- ===== src/Fimex.antt =====
-- data_access/fimex: the input and output files, through the Fimex library.
pub mod Specification
pub mod Identifiers
pub mod Xml
pub mod Translation
pub mod Parameters
pub mod Lookup
pub mod Cdm
pub mod Extract
pub mod Source
pub mod Cached
pub mod Buffers
pub mod Generated
pub mod Setup
pub mod Slots
pub mod Untouched
pub mod Storage
pub mod Stored
pub mod RoundTrip
pub mod Values
pub mod Hours
pub mod TimeSteps
