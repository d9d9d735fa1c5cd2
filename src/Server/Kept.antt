-- ===== src/Server/Kept.antt =====
-- rs/src/server.rs: every handler keeps the cached analyses those of the documents as they are, where only a closed
-- document is opened.
use lsp.Base.{ℕ, ◌≡◌, refl, Option, none, some, List, [], ◌∷◌}
use lsp.Base.Text.{Text, text_eq}
use lsp.Base.Maps.{erase}
use lsp.Types.{ℤ, Position, Range, Doc}
use lsp.Documents.{apply_changes}
use lsp.Documents.Store.{get_doc, set_encoding}
use lsp.Registry.Entries.{Entry}
use lsp.Loaders.{FilePath}
use lsp.Server.State.{Host, Server}
use lsp.Server.Due.{schedule}
use lsp.Server.Setup.{InitializeParams, initialize, register, initialized, rebuild_registry}
use lsp.Server.Editing.{
  did_open, changed_doc, did_change, did_close, forget_each, schedule_each, is_manifest, open_uris,
  watched_change, did_change_watched_files,
}
use lsp.Server.Queries.{complete_within, complete_with, complete_on, completion_at}
use lsp.Server.Dispatch.{
  OpenParams, Call, call_initialize, call_initialized, call_shutdown, call_exit, call_status,
  call_open, call_change, call_close, call_symbols, call_tokens, call_files, call_completion,
  call_hover, malformed, unhandled, perform,
}
use lsp.Server.Freshness.{
  IsFresh, IsFreshIn-erase, IsFreshIn-open_doc, IsFreshIn-change_doc, IsFreshIn-close_doc,
}
use lsp.Server.Invariant.{if_turn-IsFresh}

module _ {Value Inst Error Parsed : Type 0} (host : Host Value Inst Error Parsed) where
  rebuild_registry-IsFresh :
      (s : Server Value Inst Error Parsed)
      → IsFresh host s
      → IsFresh host (rebuild_registry host s).0
  unfolding rebuild_registry
  rebuild_registry-IsFresh s fresh = fresh

  initialize-IsFresh :
      (p : InitializeParams Value) (s : Server Value Inst Error Parsed)
      → IsFresh host s
      → IsFresh host (initialize host p s).0.0
  unfolding initialize rebuild_registry get_doc set_encoding
  initialize-IsFresh p s fresh = fresh

  initialized-IsFresh :
      (folders : List FilePath) (s : Server Value Inst Error Parsed)
      → IsFresh host s
      → IsFresh host (register host folders s).0
  initialized-IsFresh [] s fresh = fresh
  initialized-IsFresh (folder ∷ folders) s fresh = fresh

  did_open-IsFresh :
      (now : ℕ) (uri id : Text) (version : ℤ) (text : Text) (s : Server Value Inst Error Parsed)
      → get_doc s.docs uri ≡ none
      → IsFresh host s
      → IsFresh host (did_open host now uri id version text s)
  unfolding did_open schedule
  did_open-IsFresh now uri id version text s closed fresh =
      IsFreshIn-open_doc host s.docs uri id version text s.analyses closed fresh

  changed_doc-IsFresh :
      (now : ℕ) (uri : Text) (changes : List (Option Range × Text)) (version : ℤ)
      (found : Option Doc) (s : Server Value Inst Error Parsed)
      → IsFresh host s
      → IsFresh host (changed_doc host now uri changes version found s)
  unfolding schedule
  changed_doc-IsFresh now uri changes version none s fresh = fresh
  changed_doc-IsFresh now uri changes version (some doc) s fresh =
      IsFreshIn-change_doc host s.docs uri (λ d. apply_changes d changes version) s.analyses fresh

  did_close-IsFresh :
      (uri : Text) (s : Server Value Inst Error Parsed)
      → IsFresh host s
      → IsFresh host (did_close host uri s).0
  unfolding did_close
  did_close-IsFresh uri s fresh = IsFreshIn-close_doc host s.docs uri s.analyses fresh

  forget_each-IsFresh :
      (now : ℕ) (uris : List Text) (s : Server Value Inst Error Parsed)
      → IsFresh host s
      → IsFresh host (forget_each host now uris s)
  unfolding forget_each schedule
  forget_each-IsFresh now [] s fresh = fresh
  forget_each-IsFresh now (uri ∷ uris) s fresh =
      forget_each-IsFresh now uris
        (schedule host now uri (record s { analyses = erase text_eq uri s.analyses }))
        (IsFreshIn-erase host s.docs s.docs uri s.analyses (λ other apart. refl) fresh)

  schedule_each-IsFresh :
      (now : ℕ) (uris : List Text) (s : Server Value Inst Error Parsed)
      → IsFresh host s
      → IsFresh host (schedule_each host now uris s)
  unfolding schedule_each schedule
  schedule_each-IsFresh now [] s fresh = fresh
  schedule_each-IsFresh now (uri ∷ uris) s fresh =
      schedule_each-IsFresh now uris (schedule host now uri s) fresh

  watched_change-IsFresh :
      (now : ℕ) (changed : List FilePath) (s : Server Value Inst Error Parsed)
      → IsFresh host s
      → IsFresh host (watched_change host now changed s).0
  watched_change-IsFresh now [] s fresh = fresh
  watched_change-IsFresh now (path ∷ changed) s fresh =
      let rebuilt = (rebuild_registry host s).0 in
      if_turn-IsFresh host (is_manifest host (path ∷ changed) s.workspace_folders) _ _
        (forget_each-IsFresh now (open_uris host rebuilt) rebuilt
          (rebuild_registry-IsFresh s fresh))
        (schedule_each-IsFresh now _ _ fresh)

  complete_within-IsFresh :
      (doc : Doc) (position : Position) (e : Entry Value) (limit : Option ℕ)
      (s : Server Value Inst Error Parsed)
      → IsFresh host s
      → IsFresh host (complete_within host doc position e limit s).0.0
  complete_within-IsFresh doc position e (some limit) s fresh = fresh
  complete_within-IsFresh doc position e none s fresh = fresh

  complete_with-IsFresh :
      (doc : Doc) (position : Position) (e : Option (Entry Value))
      (s : Server Value Inst Error Parsed)
      → IsFresh host s
      → IsFresh host (complete_with host doc position e s).0.0
  complete_with-IsFresh doc position none s fresh = fresh
  complete_with-IsFresh doc position (some e) s fresh =
      complete_within-IsFresh doc position e _ s fresh

  complete_on-IsFresh :
      (found : Option Doc) (position : Position) (s : Server Value Inst Error Parsed)
      → IsFresh host s
      → IsFresh host (complete_on host found position s).0.0
  complete_on-IsFresh none position s fresh = fresh
  complete_on-IsFresh (some doc) position s fresh = complete_with-IsFresh doc position _ s fresh

  -- a call opens only what is not open
  abbrev pub OpensAnew : Call Value → Server Value Inst Error Parsed → Type 0
  OpensAnew call s = (p : OpenParams) → call ≡ call_open p → get_doc s.docs p.uri ≡ none

  pub perform-IsFresh :
      (now : ℕ) (id : Option Value) (method : Text) (call : Call Value)
      (s : Server Value Inst Error Parsed)
      → OpensAnew call s
      → IsFresh host s
      → IsFresh host (perform host now id method call s).0
  unfolding perform did_change initialized did_change_watched_files completion_at
  perform-IsFresh now id method (call_initialize p) s anew fresh = initialize-IsFresh p s fresh
  perform-IsFresh now id method call_initialized s anew fresh =
      initialized-IsFresh s.workspace_folders s fresh
  perform-IsFresh now id method call_shutdown s anew fresh = fresh
  perform-IsFresh now id method call_exit s anew fresh = fresh
  perform-IsFresh now id method (call_open p) s anew fresh =
      did_open-IsFresh now p.uri p.language_id p.version p.text s (anew p refl) fresh
  perform-IsFresh now id method (call_change p) s anew fresh =
      changed_doc-IsFresh now p.uri p.changes p.version (get_doc s.docs p.uri) s fresh
  perform-IsFresh now id method (call_close uri) s anew fresh = did_close-IsFresh uri s fresh
  perform-IsFresh now id method (call_files uris) s anew fresh =
      watched_change-IsFresh now _ s fresh
  perform-IsFresh now id method (call_completion p) s anew fresh =
      complete_on-IsFresh (get_doc s.docs p.uri) p.position s fresh
  perform-IsFresh now id method (call_symbols uri) s anew fresh = fresh
  perform-IsFresh now id method (call_tokens uri) s anew fresh = fresh
  perform-IsFresh now id method (call_hover p) s anew fresh = fresh
  perform-IsFresh now id method call_status s anew fresh = fresh
  perform-IsFresh now id method (malformed error) s anew fresh = fresh
  perform-IsFresh now id method unhandled s anew fresh = fresh
