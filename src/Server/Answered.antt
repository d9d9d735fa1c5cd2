-- ===== src/Server/Answered.antt =====
-- rs/src/server.rs: the responses of every handler are those that are owed.
use lsp.Base.{
  ℕ, ◌≡◌, refl, ◌∙◌, ◌⊎◌, inl, inr, Bool-cases, Option, none, some, List, [], ◌∷◌, if◌then◌else◌,
}
use lsp.Base.Text.{Text}
use lsp.Types.{Position, Doc}
use lsp.Documents.Store.{get_doc}
use lsp.Registry.Entries.{Entry}
use lsp.Instances.Cache.{Answer, disabled, ready, failed}
use lsp.Loaders.{FilePath}
use lsp.Jsonrpc.{Message, is_response}
use lsp.Server.State.{Host, Server, Outgoing}
use lsp.Server.Analyses.{get_instance, served}
use lsp.Server.Setup.{
  InitializeParams, add_language, client_languages, first_folder, folders_or_root, folder_paths,
  add_manifest, manifest_entries, initialize, register, rebuild_registry, initialized,
}
use lsp.Server.Editing.{watched_change, is_manifest, did_close, did_change_watched_files}
use lsp.Server.Queries.{offered, complete_within, complete_with, complete_on, completion_at}
use lsp.Server.Analyses.{Turn}
use lsp.Server.State.{Reply}
use lsp.Server.Dispatch.{
  answer, answered, Protocol, Call, call_initialize, call_initialized, call_shutdown, call_exit,
  call_status, call_open, call_change, call_close, call_symbols, call_tokens, call_files,
  call_completion, call_hover, malformed, unhandled, read_call, params_or, perform, handle_method,
  handle,
}
use lsp.Server.Responses.{
  responses, awaits_answer, id_list, owed_to_method, owed, none_before, responses-answer,
  responses-bad_params, responses-refuse_method, responses-refuse_message,
}

module _ {Value Inst Error Parsed : Type 0} (host : Host Value Inst Error Parsed) where
  responses-client_languages :
      (i : ℕ) (dir : Option FilePath) (values : List Value)
      → responses (client_languages host i dir values).1 ≡ []
  unfolding client_languages responses
  responses-client_languages i dir [] = refl
  responses-client_languages i dir (value ∷ values) =
      added i (host.language_entry value dir) (client_languages host _ dir values)
        (responses-client_languages _ dir values)
    where
      added :
          (i : ℕ) (e : Entry Value ⊎ Text) (found : List (Entry Value) × List (Outgoing Value))
          → responses found.1 ≡ []
          → responses (add_language host i e found).1 ≡ []
      added i (inl e) (entries, logs) h = h
      added i (inr error) (entries, logs) h = h

  responses-manifest_entries :
      (folders : List FilePath) → responses (manifest_entries host folders).1 ≡ []
  unfolding manifest_entries responses
  responses-manifest_entries [] = refl
  responses-manifest_entries (folder ∷ folders) =
      added (host.read_manifest folder) (manifest_entries host folders)
        (responses-manifest_entries folders)
    where
      added :
          (e : List (Entry Value) ⊎ Text) (found : List (Entry Value) × List (Outgoing Value))
          → responses found.1 ≡ []
          → responses (add_manifest host e found).1 ≡ []
      added (inl e) (entries, logs) h = h
      added (inr error) (entries, logs) h = h

  responses-rebuild_registry :
      (s : Server Value Inst Error Parsed) → responses (rebuild_registry host s).1 ≡ []
  unfolding rebuild_registry
  responses-rebuild_registry s = responses-manifest_entries s.workspace_folders

  responses-initialize :
      (p : InitializeParams Value) (s : Server Value Inst Error Parsed)
      → responses (initialize host p s).0.1 ≡ []
  unfolding initialize rebuild_registry
  responses-initialize p s =
      let folders = folders_or_root (folder_paths p.folder_uris) p.root_uri in
      none_before _ _
        (responses-client_languages 0 (first_folder folders host.current_dir) p.init_entries)
      ∙ responses-manifest_entries folders

  responses-register :
      (folders : List FilePath) (s : Server Value Inst Error Parsed)
      → responses (register host folders s).1 ≡ []
  unfolding responses
  responses-register [] s = refl
  responses-register (folder ∷ folders) s = refl

  responses-watched_change :
      (now : ℕ) (changed : List FilePath) (s : Server Value Inst Error Parsed)
      → responses (watched_change host now changed s).1 ≡ []
  unfolding responses
  responses-watched_change now [] s = refl
  responses-watched_change now (path ∷ changed) s =
      elim (Bool-cases (is_manifest host (path ∷ changed) s.workspace_folders)) [
        | inl e ↦ rw e (responses-rebuild_registry s)
        | inr e ↦ rw e refl
      ]

  responses-offered :
      (e : Entry Value) (doc : Doc) (position : Position) (found : Answer Inst Text)
      → responses (offered host e doc position found).1 ≡ []
  unfolding responses
  responses-offered e doc position disabled = refl
  responses-offered e doc position (failed error) = refl
  responses-offered e doc position (ready inst) = refl

  responses-complete_on :
      (found : Option Doc) (position : Position) (s : Server Value Inst Error Parsed)
      → responses (complete_on host found position s).0.1 ≡ []
  unfolding responses
  responses-complete_on none position s = refl
  responses-complete_on (some doc) position s = served_by (served host doc s)
    where
      within :
          (e : Entry Value) (limit : Option ℕ)
          → responses (complete_within host doc position e limit s).0.1 ≡ []
      within e (some limit) = refl
      within e none = responses-offered e doc position (get_instance host e s).1

      served_by :
          (e : Option (Entry Value)) → responses (complete_with host doc position e s).0.1 ≡ []
      served_by none = refl
      served_by (some e) = within e _

  responses-answered :
      (id : Option Value) (x : Turn host × Reply)
      → responses x.0.1 ≡ []
      → responses (answered host id x).1 ≡ id_list id
  responses-answered id ((s, sent), reply) h =
      none_before sent (answer id reply) h ∙ responses-answer id reply

  perform_lem :
      (now : ℕ) (id : Option Value) (method : Text) (call : Call Value)
      (s : Server Value Inst Error Parsed)
      → responses (perform host now id method call s).1
        ≡ (if awaits_answer call then id_list id else [])
  unfolding perform awaits_answer responses initialized did_close did_change_watched_files
      completion_at
  perform_lem now id method (call_initialize p) s =
      responses-answered id (initialize host p s) (responses-initialize p s)
  perform_lem now id method call_initialized s = responses-register s.workspace_folders s
  perform_lem now id method call_shutdown s = responses-answer id _
  perform_lem now id method call_exit s = refl
  perform_lem now id method (call_open p) s = refl
  perform_lem now id method (call_change p) s = refl
  perform_lem now id method (call_close uri) s = refl
  perform_lem now id method (call_files uris) s = responses-watched_change now _ s
  perform_lem now id method (call_completion p) s =
      responses-answered id (complete_on host (get_doc s.docs p.uri) p.position s)
        (responses-complete_on (get_doc s.docs p.uri) p.position s)
  perform_lem now id method (call_symbols uri) s = responses-answer id _
  perform_lem now id method (call_tokens uri) s = responses-answer id _
  perform_lem now id method (call_hover p) s = responses-answer id _
  perform_lem now id method call_status s = responses-answer id _
  perform_lem now id method (malformed error) s = responses-bad_params id method error
  perform_lem now id method unhandled s = responses-refuse_method id method

  -- A message gets the responses that it is owed and no other, each under its id: one for a
  -- request, known or not, with sound parameters or not, and for an id without a method that
  -- responds to nothing, and none for a known notification with sound parameters or without an id.
  pub responses-handle :
      (protocol : Protocol Value) (now : ℕ) (m : Message Value) (s : Server Value Inst Error Parsed)
      → responses (handle host protocol now m s).1 ≡ owed protocol m
  unfolding handle owed
  responses-handle protocol now m s = by_method m.method
    where
      by_method :
          (method : Option Text)
          → responses (handle_method host protocol now m method s).1
            ≡ owed_to_method protocol m method
      by_method none = responses-refuse_message m.id (is_response m)
      by_method (some method) =
          perform_lem now m.id method (read_call protocol method (params_or protocol m.params)) s
