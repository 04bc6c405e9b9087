-- ===== src/Uhf.antt =====
-- uhf/src/lib.rs: the universal hash functions. `[u64; 5]` limbs are a record; bytes are numbers
-- below 256.
pub mod CtEq
pub mod Poly1305
pub mod Umac
pub mod Nh
mod Tests
