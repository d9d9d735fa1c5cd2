-- ===== src/Server/Setup.antt =====
-- rs/src/server.rs: `initialize`, `initialized` and `rebuild_registry`. Of the parameters of `initialize`, which the
-- JSON library reads, there are the fields that the handler looks at.
use lsp.Base.{
  ℕ, suc, ◌+◌, ◌⊎◌, inl, inr, Bool, false, ◌||◌, Option, none, some, List, [], ◌∷◌, ◌++◌,
  if◌then◌else◌, filter,
}
use lsp.Base.Text.{Text, codes, text_eq}
use lsp.Base.Decimal.{decimal}
use lsp.Types.{PositionEncoding, utf16_units, utf8_bytes}
use lsp.Documents.Store.{set_encoding}
use lsp.Registry.Entries.{Entry, is_workspace}
use lsp.Registry.Router.{set_workspace, all_entries}
use lsp.Instances.Cache.{Instances, invalidate}
use lsp.Loaders.{FilePath, normal}
use lsp.Server.State.{Host, Server, Outgoing, registered, logged, log_warning, Reply, server_info}
use lsp.Server.Analyses.{Turn}
use lsp.Server.Uris.{folder_path_of}

pub record InitializeParams (Value : Type 0) : Type 0 where
  pub trusts : Bool
  pub folder_uris : List Text
  pub root_uri : Option Text
  pub init_entries : List Value
  pub position_encodings : List Text

abbrev pub watched_globs : List Text
watched_globs = codes "**/.tabnas/lsp.json" ∷ codes "**/*.{abnf,ebnf,gbnf}" ∷ codes "**/*.json" ∷ []

-- `.tabnas/lsp.json`
abbrev pub workspace_manifest : FilePath
workspace_manifest = normal (codes ".tabnas") ∷ normal (codes "lsp.json") ∷ []

unfoldable pub offers : Text → List Text → Bool
offers name [] = false
offers name (x ∷ xs) = text_eq x name || offers name xs

unfoldable pub negotiate_encoding : List Text → PositionEncoding
unfolding offers
negotiate_encoding names = if offers (codes "utf-8") names then utf8_bytes else utf16_units

abbrev pub found_in : Option FilePath → List FilePath → List FilePath
found_in none paths = paths
found_in (some path) paths = path ∷ paths

-- `filter_map(folder_path_of)`
unfoldable pub folder_paths : List Text → List FilePath
folder_paths [] = []
folder_paths (uri ∷ uris) = found_in (folder_path_of uri) (folder_paths uris)

-- the folders, or else the root
abbrev pub folders_or_root : List FilePath → Option Text → List FilePath
folders_or_root (folder ∷ folders) root = folder ∷ folders
folders_or_root [] none = []
folders_or_root [] (some root) = folder_paths (root ∷ [])

abbrev pub first_folder : List FilePath → Option FilePath → Option FilePath
first_folder [] cwd = cwd
first_folder (folder ∷ folders) cwd = some folder

module _ {Value Inst Error Parsed : Type 0} (host : Host Value Inst Error Parsed) where
  -- the entries that the client supplies, from number `i` on, and the warnings of those that are none
  abbrev pub add_language :
      ℕ
      → Entry Value ⊎ Text
      → List (Entry Value) × List (Outgoing Value)
      → List (Entry Value) × List (Outgoing Value)
  add_language i (inl e) (entries, logs) = (e ∷ entries, logs)
  add_language i (inr error) (entries, logs) = (
    entries,
    logged log_warning (
          codes "tabnas-lsp: initializationOptions.languages["
          ++ (decimal i ++ (codes "] ignored: " ++ error)))
        ∷ logs,
  )

  unfoldable pub client_languages :
      ℕ → Option FilePath → List Value → List (Entry Value) × List (Outgoing Value)
  unfolding decimal
  client_languages i dir [] = ([], [])
  client_languages i dir (value ∷ values) =
      add_language i (host.language_entry value dir) (client_languages (suc i) dir values)

  unfoldable pub invalidate_each : List (Entry Value) → Instances Inst → Instances Inst
  invalidate_each [] instances = instances
  invalidate_each (e ∷ es) instances = invalidate_each es (invalidate host.identity instances e)

  abbrev pub invalidate_workspace : Server Value Inst Error Parsed → Server Value Inst Error Parsed
  invalidate_workspace s = record s {
    instances = invalidate_each (filter is_workspace (all_entries s.router)) s.instances;
  }

  abbrev pub add_manifest :
      List (Entry Value) ⊎ Text
      → List (Entry Value) × List (Outgoing Value)
      → List (Entry Value) × List (Outgoing Value)
  add_manifest (inl more) (entries, logs) = (more ++ entries, logs)
  add_manifest (inr error) (entries, logs) = (
    entries,
    logged log_warning (codes "tabnas-lsp: workspace manifest ignored: " ++ error) ∷ logs,
  )

  -- the entries of the folders' manifests, in order
  unfoldable pub manifest_entries : List FilePath → List (Entry Value) × List (Outgoing Value)
  manifest_entries [] = ([], [])
  manifest_entries (folder ∷ folders) =
      add_manifest (host.read_manifest folder) (manifest_entries folders)

  unfoldable pub rebuild_registry : Server Value Inst Error Parsed → Turn host
  unfolding invalidate_each manifest_entries set_workspace all_entries
  rebuild_registry s =
      let cleared = invalidate_workspace s in
      let (entries, logs) = manifest_entries s.workspace_folders in
      let tier = s.config.workspace_entries ++ (s.init_languages ++ entries) in
      (invalidate_workspace (record cleared { router = set_workspace s.router tier }), logs)

  unfoldable pub initialize :
      InitializeParams Value → Server Value Inst Error Parsed → Turn host × Reply
  unfolding folder_paths client_languages negotiate_encoding set_encoding rebuild_registry
  initialize p s =
      let folders = folders_or_root (folder_paths p.folder_uris) p.root_uri in
      let (entries, logs) =
        client_languages 0 (first_folder folders host.current_dir) p.init_entries in
      let encoding = negotiate_encoding p.position_encodings in
      let (rebuilt, more) = rebuild_registry (record s {
        trust = s.trust || p.trusts;
        workspace_folders = folders;
        init_languages = entries;
        encoding = encoding;
        docs = set_encoding s.docs encoding;
      }) in
      ((rebuilt, logs ++ more), server_info encoding s.config.server_name)

  abbrev pub register : List FilePath → Server Value Inst Error Parsed → Turn host
  register [] s = (s, [])
  register (folder ∷ folders) s =
      (record s { next_id = s.next_id + 1 }, registered s.next_id watched_globs ∷ [])

  unfoldable pub initialized : Server Value Inst Error Parsed → Turn host
  initialized s = register s.workspace_folders s
