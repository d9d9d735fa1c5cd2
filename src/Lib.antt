-- ===== src/Lib.antt =====
-- The language server of the tabnas parsing engine (rs/src): what it computes from a document and from the
-- engine's trace of it.
--
-- A client opens and edits documents (documents.rs); the engine parses one and reports its token events and rule
-- events; the trace is reconciled (trace.rs) and becomes semantic tokens (semantic.rs), highlights
-- (highlight.rs) and an outline (outline.rs); the engine's continuations become completion items
-- (completion.rs). A document is served by the registry entry that it is routed to (registry.rs); the entry's engine
-- instance comes from a cache with a quarantine for failing grammars, and parses on several threads take turns at a
-- gate (instances.rs). Messages travel as JSON-RPC (jsonrpc.rs). The server (server.rs) holds the open documents and
-- what was last computed of each; it reads a message, changes its state, answers, and analyzes a document some time
-- after its last edit.
--
-- Types: rs/src/types.rs, positions, documents, token points and rule events. Lists, text and maps are in Base: text
-- is a list of Unicode scalar values with its UTF-8 and UTF-16 lengths, a hash map a list of entries.
-- Documents: rs/src/documents.rs, `Doc` with its lazy line index (`line_starts_cell`), `boundary`, `line_span`,
-- `position_at`, `offset_at`, the engine's positions, `apply_change` and `apply_changes`; Documents/Store is
-- `DocumentStore`.
-- Trace: rs/src/trace.rs, `claim`, `reconcile_placed`, `anchor`, `reconcile_in`. A B-tree map of intervals is an
-- ascending list.
-- Columns: the cursors of rs/src/semantic.rs and rs/src/outline.rs, which differ in the unit they count.
-- Semantic: rs/src/semantic.rs, the legend, `segments`, `encode`.
-- Outline: rs/src/outline.rs, the matching of events, the measured positions, `nest`.
-- Instances: rs/src/instances.rs, `Instances` with `get`, `record_failure` and `invalidate` (Cache); `Gate` as a step
-- relation between the states of all threads (Gate); `Mux` over the list of what happens in an engine call (Mux).
-- Registry: rs/src/registry.rs, `fs_path_of`, `ext_of` and `contains` (Paths), `Router` (Router) with `tie_break` (Ties),
-- `resolve` and the look-ups by media type (Routing); `Entry` of rs/src/types.rs is Registry/Entries. A path is its
-- text.
-- Loaders: rs/src/loaders.rs, the sandbox of grammar files; `firewall_spec` (Firewall) with its scans (Scans, AltScans) over a
-- JSON document (Json), a tree of its own constructors, so the scans are structural; Loaders/Watch is `watched_file` and `Router::reloaded_by`.
-- Completion: rs/src/completion.rs. Jsonrpc: rs/src/jsonrpc.rs, messages and errors; the headers of a
-- message (Framing), `read_message`, `write_message` and the reader loop of `Connection::new` (Reader). Highlight:
-- rs/src/highlight.rs, `build`. Hover: rs/src/hover.rs.
-- Analyze: rs/src/analyze.rs, what one parse yields, composed of the parts above.
-- Server: rs/src/server.rs, the record `Server` and what goes out (State), `run_analysis` and the gate before the
-- instance maker (Analyses), `schedule`, `analyze_due`, `flush` and `current_analysis` (Due), `initialize` (Setup), the
-- document notifications and `did_change_watched_files` (Editing), `completion`, `hover` and `status` (Queries),
-- `handle` (Dispatch), `run` and `serve` (Loop), and the paths of URIs (Uris). A handler is a function of the state to
-- the state and the list of what it sends; the time is an argument; what the host and the JSON library do is in the
-- records `Host` and `Protocol`.
--
-- Machine integers: `usize` sums that the source saturates are cut at 2^64 - 1, wire values at 2^32 - 1; the other
-- sums of the source count parts of one text in memory and stay below. The loop of `claim` removes an interval in
-- each round, so its fuel is the number of intervals; the reader loop of jsonrpc.rs runs on fuel above the number of
-- bytes in its stream, which it never uses up; the other loops are structural.
--
-- Not modelled: the engine itself and the JSON library, whose answers are parameters; in server.rs the panics of
-- handlers, writes that fail, the parse deadline and the reading of client entries and manifests; in loaders.rs the
-- reading and the compile of grammar files, their repetition bounds and the making of engine instances; the command
-- line and other input and output; the TypeScript and Go servers.
pub mod Base
pub mod Types
pub mod Documents
pub mod Trace
pub mod Columns
pub mod Semantic
pub mod Outline
pub mod Instances
pub mod Registry
pub mod Loaders
pub mod Completion
pub mod Jsonrpc
pub mod Highlight
pub mod Hover
pub mod Analyze
pub mod Server
pub mod Tests
