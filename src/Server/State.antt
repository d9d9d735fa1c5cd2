-- ===== src/Server/State.antt =====
-- rs/src/server.rs: `Server` with its configuration (types.rs `Config`), what it sends, and what it uses of the host: the
-- engine, the instance maker, the registry's spelling of entries and the folder manifests. A time is a number; the
-- trust flag, which the host may share, is the server's own; a connection takes every message.
use lsp.Base.{ℕ, ◌⊎◌, Bool, false, ◌||◌, Option, List, [], ◌∷◌, if◌then◌else◌}
use lsp.Base.Text.{Text, text_eq}
use lsp.Types.{ℤ, PositionEncoding, utf16_units}
use lsp.Documents.Store.{DocumentStore, new_store}
use lsp.Outline.Nesting.{Symbols}
use lsp.Registry.Entries.{Entry}
use lsp.Registry.Router.{Router, new_router}
use lsp.Instances.Cache.{Identity, Instances, new_instances}
use lsp.Instances.Mux.{Collected}
use lsp.Completion.{CompletionItem}
use lsp.Hover.{Hover}
use lsp.Jsonrpc.{Message}
use lsp.Analyze.{Diagnostic, EngineDiagnostic, Analysis, Recovery}
use lsp.Loaders.{FilePath}

pub record Config (Value : Type 0) : Type 0 where
  pub entries : List (Entry Value)
  pub user_entries : List (Entry Value)
  pub workspace_entries : List (Entry Value)
  pub trust_workspace_modules : Bool
  pub debounce : ℕ
  pub max_document_bytes : Option ℕ
  pub server_name : Text

-- A parse that unwinds is its panic's text; the continuations are none where the query panics.
pub record Host (Value Inst Error Parsed : Type 0) : Type 0 where
  pub identity : Identity (Entry Value) Text
  pub make_instance : Entry Value → Text ⊎ Inst
  pub install : Inst → Inst
  pub parse : Inst → Text → (Recovery Error Parsed × Collected) ⊎ Text
  pub same_error : Error → Error → Bool
  pub read_error : Error → Option EngineDiagnostic
  pub error_code : Error → Text
  pub error_detail : Error → Text
  pub continuations : Inst → Text → Option (List Text)
  pub fixed_source : Inst → Text → Option Text
  pub to_lowercase : Text → Text
  pub current_dir : Option FilePath
  pub language_entry : Value → Option FilePath → Entry Value ⊎ Text
  pub read_manifest : FilePath → List (Entry Value) ⊎ Text

pub record LanguageStatus : Type 0 where
  pub language_id : Text
  pub enabled : Bool
  pub source : Text
  pub quarantined : Bool
  pub lex_stream : Text

-- the results of requests
pub data Reply : Type 0 where
  server_info : PositionEncoding → Text → Reply
  completion_items : List CompletionItem → Reply
  document_symbols : Symbols → Reply
  token_data : List ℕ → Reply
  hover_result : Hover → Reply
  languages : List LanguageStatus → Reply
  null_result : Reply

-- what goes to the client
pub data Outgoing (Value : Type 0) : Type 0 where
  responded : Value → Reply → Outgoing Value
  responded_error : Value → ℤ → Text → Outgoing Value
  published : Text → Option ℤ → List Diagnostic → Outgoing Value
  registered : ℕ → List Text → Outgoing Value
  logged : ℕ → Text → Outgoing Value
  passed : Message Value → Outgoing Value

abbrev pub log_error : ℕ
log_error = 1

abbrev pub log_warning : ℕ
log_warning = 2

pub record Server (Value Inst Error Parsed : Type 0) : Type 0 where
  pub config : Config Value
  pub router : Router Value
  pub docs : DocumentStore
  pub instances : Instances Inst
  pub analyses : List (Text × (ℤ × Analysis Error Parsed))
  pub pending : List (Text × ℕ)
  pub published : List Text
  pub encoding : PositionEncoding
  pub workspace_folders : List FilePath
  pub init_languages : List (Entry Value)
  pub trust : Bool
  pub next_id : ℕ
  pub shutdown : Bool
  pub exited : Bool

-- Server::with_trust, where `granted` is the flag that the host shares
unfoldable pub with_trust :
    {Value Inst Error Parsed : Type 0} → Config Value → Bool → Server Value Inst Error Parsed
unfolding new_router
with_trust config granted = record {
  config = config;
  router = new_router config.entries config.workspace_entries config.user_entries;
  docs = new_store;
  instances = new_instances;
  analyses = [];
  pending = [];
  published = [];
  encoding = utf16_units;
  workspace_folders = [];
  init_languages = [];
  trust = config.trust_workspace_modules || granted;
  next_id = 1;
  shutdown = false;
  exited = false;
}

-- Server::new
unfoldable pub new_server :
    {Value Inst Error Parsed : Type 0} → Config Value → Server Value Inst Error Parsed
unfolding with_trust
new_server config = with_trust config false

-- a set of URIs
unfoldable pub holds : Text → List Text → Bool
holds uri [] = false
holds uri (x ∷ xs) = text_eq x uri || holds uri xs

unfoldable pub include : Text → List Text → List Text
unfolding holds
include uri xs = if holds uri xs then xs else uri ∷ xs

unfoldable pub exclude : Text → List Text → List Text
exclude uri [] = []
exclude uri (x ∷ xs) = if text_eq x uri then exclude uri xs else x ∷ exclude uri xs
