-- ===== src/Server/Editing.antt =====
-- rs/src/server.rs: `did_open`, `did_change`, `did_close` and `did_change_watched_files`.
use lsp.Base.{ℕ, Bool, false, ◌||◌, Option, none, some, List, [], ◌∷◌, if◌then◌else◌, map, filter}
use lsp.Base.Text.{Text, text_eq}
use lsp.Base.Maps.{erase}
use lsp.Types.{ℤ, Range, Doc}
use lsp.Documents.{apply_changes}
use lsp.Documents.Store.{get_doc, open_doc, change_doc, close_doc}
use lsp.Registry.Entries.{Entry}
use lsp.Loaders.{FilePath, join}
use lsp.Loaders.Watch.{is_changed, watched_file, reloaded_by}
use lsp.Server.State.{Host, Server, published, exclude}
use lsp.Server.Analyses.{Turn, served}
use lsp.Server.Due.{schedule}
use lsp.Server.Uris.{normalize}
use lsp.Server.Setup.{invalidate_each, workspace_manifest, folder_paths, rebuild_registry}

module _ {Value Inst Error Parsed : Type 0} (host : Host Value Inst Error Parsed) where
  unfoldable pub did_open :
      ℕ → Text → Text → ℤ → Text → Server Value Inst Error Parsed → Server Value Inst Error Parsed
  unfolding schedule open_doc
  did_open now uri id version text s =
      schedule host now uri (record s { docs = open_doc s.docs uri id version text })

  abbrev pub changed_doc :
      ℕ
      → Text
      → List (Option Range × Text)
      → ℤ
      → Option Doc
      → Server Value Inst Error Parsed
      → Server Value Inst Error Parsed
  changed_doc now uri changes version none s = s
  changed_doc now uri changes version (some doc) s = schedule host now uri (record s {
    docs = change_doc s.docs uri (λ d. apply_changes d changes version);
    analyses = erase text_eq uri s.analyses;
  })

  unfoldable pub did_change :
      ℕ
      → Text
      → List (Option Range × Text)
      → ℤ
      → Server Value Inst Error Parsed
      → Server Value Inst Error Parsed
  unfolding get_doc change_doc schedule
  did_change now uri changes version s = changed_doc now uri changes version (get_doc s.docs uri) s

  unfoldable pub did_close : Text → Server Value Inst Error Parsed → Turn host
  unfolding close_doc exclude
  did_close uri s = (
    record s {
      docs = (close_doc s.docs uri).0;
      analyses = erase text_eq uri s.analyses;
      pending = erase text_eq uri s.pending;
      published = exclude uri s.published;
    },
    published uri none [] ∷ [],
  )

  -- the open documents, by URI
  unfoldable pub forget_each :
      ℕ → List Text → Server Value Inst Error Parsed → Server Value Inst Error Parsed
  unfolding schedule
  forget_each now [] s = s
  forget_each now (uri ∷ uris) s =
      forget_each now uris
        (schedule host now uri (record s { analyses = erase text_eq uri s.analyses }))

  unfoldable pub schedule_each :
      ℕ → List Text → Server Value Inst Error Parsed → Server Value Inst Error Parsed
  unfolding schedule
  schedule_each now [] s = s
  schedule_each now (uri ∷ uris) s = schedule_each now uris (schedule host now uri s)

  abbrev pub open_uris : Server Value Inst Error Parsed → List Text
  open_uris s = map (λ (p : Text × Doc). p.1.uri) s.docs.docs

  -- whether the entry is one of those that `reloaded_by` names, which is whether its own file changed
  abbrev pub is_reloaded : List FilePath → Option (Entry Value) → Bool
  is_reloaded changed none = false
  is_reloaded changed (some e) = is_changed changed (watched_file host.current_dir e)

  abbrev pub invalidate_reloaded :
      List FilePath → Server Value Inst Error Parsed → Server Value Inst Error Parsed
  invalidate_reloaded changed s = record s {
    instances = invalidate_each host (reloaded_by host.current_dir s.router changed) s.instances;
  }

  abbrev pub reload :
      ℕ → List FilePath → Server Value Inst Error Parsed → Server Value Inst Error Parsed
  reload now changed s =
      schedule_each now
        (map (λ (p : Text × Doc). p.1.uri)
          (filter (λ (p : Text × Doc). is_reloaded changed (served host p.1 s)) s.docs.docs))
        (invalidate_reloaded changed s)

  unfoldable pub is_manifest : List FilePath → List FilePath → Bool
  unfolding normalize
  is_manifest changed [] = false
  is_manifest changed (folder ∷ folders) =
      is_changed changed (some (normalize (join folder workspace_manifest)))
      || is_manifest changed folders

  abbrev pub rebuilt_for : ℕ → Turn host → Turn host
  rebuilt_for now (s, logs) = (forget_each now (open_uris s) s, logs)

  abbrev pub watched_change : ℕ → List FilePath → Server Value Inst Error Parsed → Turn host
  watched_change now [] s = (s, [])
  watched_change now (path ∷ changed) s =
      if is_manifest (path ∷ changed) s.workspace_folders
      then rebuilt_for now (rebuild_registry host s)
      else (reload now (path ∷ changed) s, [])

  unfoldable pub did_change_watched_files :
      ℕ → List Text → Server Value Inst Error Parsed → Turn host
  unfolding folder_paths normalize is_manifest rebuild_registry forget_each schedule_each
      reloaded_by invalidate_each served
  did_change_watched_files now uris s = watched_change now (map normalize (folder_paths uris)) s
