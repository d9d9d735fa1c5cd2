-- ===== src/Server/Untouched.antt =====
-- rs/src/server.rs: what the analyses of documents leave as it is.
use lsp.Base.{
  ℕ, ◌≡◌, refl, Bool, true, false, not, ◌⊎◌, inl, inr, Option, none, some, List, [], if◌then◌else◌,
}
use lsp.Base.Text.{Text, byte_len}
use lsp.Types.{Doc}
use lsp.Documents.Store.{DocumentStore, get_doc}
use lsp.Registry.Entries.{Entry}
use lsp.Registry.Router.{Router}
use lsp.Instances.Cache.{Answer, disabled, ready, failed}
use lsp.Instances.Mux.{Collected}
use lsp.Analyze.{Analysis, Recovery, analyze}
use lsp.Server.State.{Host, Server, holds}
use lsp.Server.Analyses.{
  Turn, over, get_instance, internal_failure, conclude, analyze_with, with_instance, within_limit,
  routed, served, run_on, run_analysis,
}

module _ {Value Inst Error Parsed : Type 0} (host : Host Value Inst Error Parsed) where
  -- what only messages change, and the deadlines
  abbrev pub settings :
      Server Value Inst Error Parsed → List (Text × ℕ) × (Bool × (DocumentStore × Router Value))
  settings s = (s.pending, (s.trust, (s.docs, s.router)))

  if_settings :
      (b : Bool) (s t u : Server Value Inst Error Parsed)
      → settings s ≡ settings u
      → settings t ≡ settings u
      → settings (if b then s else t) ≡ settings u
  if_settings true s t u h k = h
  if_settings false s t u h k = k

  if_turn_settings :
      (b : Bool) (x y : Turn host) (u : Server Value Inst Error Parsed)
      → settings x.0 ≡ settings u
      → settings y.0 ≡ settings u
      → settings (if b then x else y).0 ≡ settings u
  if_turn_settings true x y u h k = h
  if_turn_settings false x y u h k = k

  settings-conclude :
      (uri : Text) (doc : Doc) (e : Entry Value) (analysis : Analysis Error Parsed)
      (failure : Option Text) (s : Server Value Inst Error Parsed)
      → settings (conclude host uri doc e analysis failure s).0 ≡ settings s
  settings-conclude uri doc e analysis none s = if_settings (not analysis.failed) _ _ s refl refl
  settings-conclude uri doc e analysis (some failure) s = refl

  settings-analyze_with :
      (uri : Text) (doc : Doc) (e : Entry Value)
      (parsed : (Recovery Error Parsed × Collected) ⊎ Text) (s : Server Value Inst Error Parsed)
      → settings (analyze_with host uri doc e parsed s).0 ≡ settings s
  settings-analyze_with uri doc e (inr failure) s = refl
  settings-analyze_with uri doc e (inl (recovery, collected)) s =
      let analysis = analyze host.same_error host.read_error recovery collected e doc in
      settings-conclude uri doc e analysis (internal_failure host analysis) s

  settings-with_instance :
      (uri : Text) (doc : Doc) (e : Entry Value) (answer : Answer Inst Text)
      (s : Server Value Inst Error Parsed)
      → settings (with_instance host uri doc e answer s).0 ≡ settings s
  settings-with_instance uri doc e disabled s = refl
  settings-with_instance uri doc e (failed error) s = refl
  settings-with_instance uri doc e (ready inst) s =
      settings-analyze_with uri doc e (host.parse inst doc.text) s

  settings-within_limit :
      (uri : Text) (doc : Doc) (e : Entry Value) (limit : Option ℕ)
      (s : Server Value Inst Error Parsed)
      → settings (within_limit host uri doc e limit s).0 ≡ settings s
  settings-within_limit uri doc e (some limit) s = refl
  settings-within_limit uri doc e none s =
      let (instances, answer) = get_instance host e s in
      settings-with_instance uri doc e answer (record s { instances = instances })

  settings-routed :
      (uri : Text) (doc : Doc) (route : Option (Entry Value)) (s : Server Value Inst Error Parsed)
      → settings (routed host uri doc route s).0 ≡ settings s
  settings-routed uri doc none s = if_turn_settings (holds uri s.published) _ (s, []) s refl refl
  settings-routed uri doc (some e) s =
      settings-within_limit uri doc e (over s.config.max_document_bytes (byte_len doc.text)) s

  settings-run_on :
      (uri : Text) (found : Option Doc) (s : Server Value Inst Error Parsed)
      → settings (run_on host uri found s).0 ≡ settings s
  settings-run_on uri none s = refl
  settings-run_on uri (some doc) s = settings-routed uri doc (served host doc s) s

  pub settings-run_analysis :
      (uri : Text) (s : Server Value Inst Error Parsed)
      → settings (run_analysis host uri s).0 ≡ settings s
  unfolding run_analysis
  settings-run_analysis uri s = settings-run_on uri (get_doc s.docs uri) s
