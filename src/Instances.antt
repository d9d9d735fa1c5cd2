-- ===== src/Instances.antt =====
-- rs/src/instances.rs: the cache of engine instances with its quarantine, and the gate that serializes parses.
pub mod Cache
pub mod Quarantine
pub mod Gate
pub mod Mux
