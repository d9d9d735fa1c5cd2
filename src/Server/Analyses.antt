-- ===== src/Server/Analyses.antt =====
-- rs/src/server.rs: `run_analysis`, and the gate before the host's instance maker.
use lsp.Base.{
  ℕ, ◌⊎◌, inl, inr, Bool, ◌&&◌, not, Option, none, some, List, [], ◌∷◌, ◌++◌, ltb, if◌then◌else◌,
}
use lsp.Base.Text.{Text, codes, text_eq, byte_len}
use lsp.Base.Maps.{erase, put}
use lsp.Base.Decimal.{decimal}
use lsp.Types.{Doc}
use lsp.Documents.Store.{get_doc}
use lsp.Registry.Entries.{Entry, Load, module_named, language_id, is_workspace, load}
use lsp.Registry.Routing.{resolve}
use lsp.Instances.Cache.{Instances, Answer, disabled, ready, failed, get, record_failure}
use lsp.Instances.Mux.{Collected}
use lsp.Analyze.{Diagnostic, Analysis, Recovery, severity_error, analyze}
use lsp.Server.State.{Host, Server, Outgoing, published, logged, log_error, holds, include, exclude}

-- the one diagnostic of a document that is too large
unfoldable pub too_large : Text → ℕ → ℕ → Diagnostic
unfolding decimal
too_large id size limit = record {
  range = record {
    start = record { line = 0; character = 0 };
    end = record { line = 0; character = 0 };
  };
  severity = severity_error;
  code = none;
  source = codes "tabnas:" ++ id;
  message =
      codes "document is "
      ++ (decimal size
          ++ (codes " bytes, larger than the "
              ++ (decimal limit ++ codes "-byte limit: not analyzed")));
  code_description = none;
}

-- whether a document is over the limit, if there is one
unfoldable pub over : Option ℕ → ℕ → Option ℕ
over none size = none
over (some limit) size = if ltb limit size then some limit else none

abbrev pub detail_or : Text → Text
detail_or [] = codes "internal error"
detail_or (c ∷ t) = c ∷ t

module _ {Value Inst Error Parsed : Type 0} (host : Host Value Inst Error Parsed) where
  abbrev pub Turn : Type 0
  Turn = Server Value Inst Error Parsed × List (Outgoing Value)

  -- gated_make_instance; the budget check it puts on an instance is in the parameter
  abbrev pub gated : Bool → Entry Value → Load Value → Text ⊎ Inst
  gated trust e (module_named name) =
      if is_workspace e && not trust
      then inl (
          codes "workspace entry "
          ++ (language_id e
              ++ (codes " loads module "
                  ++ (name
                      ++ codes
                          ", which runs code from the workspace. Refused: set trustWorkspaceModules in initializationOptions to allow it."))))
      else host.make_instance e
  gated trust e _ = host.make_instance e

  unfoldable pub gated_make_instance : Bool → Entry Value → Text ⊎ Inst
  gated_make_instance trust e = gated trust e (load e)

  -- the first `internal` error of an analysis
  unfoldable pub internal_of : List Error → Option Text
  internal_of [] = none
  internal_of (error ∷ errors) =
      if text_eq (host.error_code error) (codes "internal")
      then some (detail_or (host.error_detail error))
      else internal_of errors

  unfoldable pub internal_failure : Analysis Error Parsed → Option Text
  unfolding internal_of
  internal_failure analysis = internal_of analysis.errors

  -- the analysis of a document without a route
  abbrev pub withdraw : Text → Doc → Server Value Inst Error Parsed → Turn
  withdraw uri doc s =
      if holds uri s.published
      then (
        record s { published = exclude uri s.published },
        published uri (some doc.version) [] ∷ [],
      )
      else (s, [])

  -- a failed analysis counts against the grammar
  abbrev pub fail : Entry Value → Text → Server Value Inst Error Parsed → Turn
  fail e failure s = (
    record s { instances = record_failure host.identity s.instances e none },
    logged log_error
          (codes "tabnas-lsp: analysis failed (" ++ (language_id e ++ (codes "): " ++ failure)))
        ∷ [],
  )

  abbrev pub mark : Text → List Diagnostic → List Text → List Text
  mark uri [] uris = exclude uri uris
  mark uri (d ∷ diagnostics) uris = include uri uris

  abbrev pub publish : Text → Doc → Analysis Error Parsed → Server Value Inst Error Parsed → Turn
  publish uri doc analysis s =
      let marked = record s { published = mark uri analysis.diagnostics s.published } in
      (
        if not analysis.failed
            then record marked { analyses = put text_eq uri (doc.version, analysis) s.analyses }
            else marked,
        published uri (some doc.version) analysis.diagnostics ∷ [],
      )

  abbrev pub conclude :
      Text
      → Doc
      → Entry Value
      → Analysis Error Parsed
      → Option Text
      → Server Value Inst Error Parsed
      → Turn
  conclude uri doc e analysis none s = publish uri doc analysis s
  conclude uri doc e analysis (some failure) s = fail e failure s

  -- from the parse on
  abbrev pub analyze_with :
      Text
      → Doc
      → Entry Value
      → (Recovery Error Parsed × Collected) ⊎ Text
      → Server Value Inst Error Parsed
      → Turn
  analyze_with uri doc e (inr failure) s = fail e failure s
  analyze_with uri doc e (inl (recovery, collected)) s =
      let analysis = analyze host.same_error host.read_error recovery collected e doc in
      conclude uri doc e analysis (internal_failure analysis) s

  -- what `instances.get` answers decides
  abbrev pub with_instance :
      Text → Doc → Entry Value → Answer Inst Text → Server Value Inst Error Parsed → Turn
  with_instance uri doc e disabled s = (s, [])
  with_instance uri doc e (failed error) s =
      (s, logged log_error (codes "tabnas-lsp: grammar load failed: " ++ error) ∷ [])
  with_instance uri doc e (ready inst) s = analyze_with uri doc e (host.parse inst doc.text) s

  -- `self.instances.get(entry, None)`
  abbrev pub get_instance :
      Entry Value → Server Value Inst Error Parsed → Instances Inst × Answer Inst Text
  get_instance e s = get host.identity host.install (gated_make_instance s.trust) s.instances e none

  abbrev pub within_limit :
      Text → Doc → Entry Value → Option ℕ → Server Value Inst Error Parsed → Turn
  within_limit uri doc e (some limit) s = (
    record s { analyses = erase text_eq uri s.analyses; published = include uri s.published },
    published uri (some doc.version) (too_large (language_id e) (byte_len doc.text) limit ∷ [])
        ∷ [],
  )
  within_limit uri doc e none s =
      let (instances, answer) = get_instance e s in
      with_instance uri doc e answer (record s { instances = instances })

  abbrev pub routed : Text → Doc → Option (Entry Value) → Server Value Inst Error Parsed → Turn
  routed uri doc none s = withdraw uri doc s
  routed uri doc (some e) s =
      within_limit uri doc e (over s.config.max_document_bytes (byte_len doc.text)) s

  -- the entry that serves a document
  unfoldable pub served : Doc → Server Value Inst Error Parsed → Option (Entry Value)
  unfolding resolve
  served doc s = (resolve host.to_lowercase s.router doc.language_id doc.uri).entry

  abbrev pub run_on : Text → Option Doc → Server Value Inst Error Parsed → Turn
  run_on uri none s = (s, [])
  run_on uri (some doc) s = routed uri doc (served doc s) s

  unfoldable pub run_analysis : Text → Server Value Inst Error Parsed → Turn
  unfolding get_doc served too_large over gated_make_instance internal_failure holds include exclude
      get record_failure analyze
  run_analysis uri s = run_on uri (get_doc s.docs uri) s
