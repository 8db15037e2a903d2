-- ===== src/Common.antt =====
-- crates/findverse-common/src/lib.rs, which the API and the crawler share.
pub mod Error
pub mod Address
pub mod Digest
pub mod Scope
pub mod Terms
