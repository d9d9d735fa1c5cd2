-- ===== src/Registry.antt =====
-- rs/src/registry.rs: which entry serves a document. The children are the texts of URIs and folders, the entries with
-- their defaults, the tiers, and the routing over them.
pub mod Paths
pub mod Escapes
pub mod Folders
pub mod FolderText
pub mod Entries
pub mod Router
pub mod Ties
pub mod Routing
pub mod Tiers
pub mod Claimants
pub mod Search
pub mod Ranks
pub mod Precedence
pub mod Answers
pub mod Bundled
