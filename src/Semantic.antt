-- ===== src/Semantic.antt =====
-- rs/src/semantic.rs: token names to legend entries, reconciled tokens to line-local segments, and the delta-encoded
-- form of the protocol.
pub mod Legend
pub mod Segments
pub mod Encoding
pub mod Order
pub mod Origin
pub mod Decode
