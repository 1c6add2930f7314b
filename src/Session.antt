-- ===== src/Session.antt =====
-- internal/session: the data model, its errors and the store's interface.
pub mod Model
pub mod Errors
pub mod Contract
pub mod Encoding
pub mod Validate
pub mod Validity
pub mod Fingerprint
pub mod Decoding
pub mod Reads
