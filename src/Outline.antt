-- ===== src/Outline.antt =====
-- rs/src/outline.rs: document symbols from the rule events of one parse. The children are the parts: the symbols that
-- the events open and close, their positions, and the nesting by byte spans.
pub mod Events
pub mod Nesting
pub mod Symbols
pub mod Containment
