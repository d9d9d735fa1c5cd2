-- ===== src/Server.antt =====
-- rs/src/server.rs: the running server. What it holds and sends (State), the analysis of a document (Analyses) and when
-- it is due (Due), the handlers (Setup, Editing, Queries), the dispatch of messages (Dispatch) and the loop (Loop); the
-- URIs of folders are in Uris. The others are proofs.
pub mod State
pub mod Analyses
pub mod Due
pub mod Uris
pub mod Setup
pub mod Editing
pub mod Queries
pub mod Dispatch
pub mod Loop
pub mod Freshness
pub mod Invariant
pub mod Kept
pub mod Reachable
pub mod Responses
pub mod Answered
pub mod Untouched
pub mod Deadlines
pub mod Trust
pub mod Normal
