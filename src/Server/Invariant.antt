-- ===== src/Server/Invariant.antt =====
-- rs/src/server.rs: every operation keeps the cached analyses those of the documents as they are.
use lsp.Base.{
  ℕ, ◌≡◌, refl, Bool, true, false, not, ◌⊎◌, inl, inr, Option, none, some, List, [], ◌∷◌, map,
  if◌then◌else◌,
}
use lsp.Base.Text.{Text, text_eq}
use lsp.Base.Maps.{erase}
use lsp.Types.{Doc}
use lsp.Documents.Store.{get_doc}
use lsp.Registry.Entries.{Entry}
use lsp.Instances.Cache.{Answer, disabled, ready, failed}
use lsp.Instances.Mux.{Collected}
use lsp.Analyze.{Analysis, Recovery, analyze}
use lsp.Server.State.{Host, Server, Outgoing, holds}
use lsp.Server.Analyses.{
  publish, conclude, analyze_with, with_instance, get_instance, within_limit, routed, served,
  run_on, run_analysis, internal_failure,
}
use lsp.Server.Due.{run_all, due_order, deadline_first, due_by, analyze_due, flush}
use lsp.Base.Sort.{sort}
use lsp.Server.Freshness.{IsMadeFrom, IsFresh, IsFreshIn-erase, IsFreshIn-put}

module _ {Value Inst Error Parsed : Type 0} (host : Host Value Inst Error Parsed) where
  -- whichever branch is taken
  if-IsFresh :
      (b : Bool) (s t : Server Value Inst Error Parsed)
      → IsFresh host s
      → IsFresh host t
      → IsFresh host (if b then s else t)
  if-IsFresh true s t fresh fresh' = fresh
  if-IsFresh false s t fresh fresh' = fresh'

  pub if_turn-IsFresh :
      (b : Bool) (x y : Server Value Inst Error Parsed × List (Outgoing Value))
      → IsFresh host x.0
      → IsFresh host y.0
      → IsFresh host (if b then x else y).0
  if_turn-IsFresh true x y fresh fresh' = fresh
  if_turn-IsFresh false x y fresh fresh' = fresh'

  publish-IsFresh :
      (uri : Text) (doc : Doc) (analysis : Analysis Error Parsed)
      (s : Server Value Inst Error Parsed)
      → get_doc s.docs uri ≡ some doc
      → IsMadeFrom host doc analysis
      → IsFresh host s
      → IsFresh host (publish host uri doc analysis s).0
  publish-IsFresh uri doc analysis s opened made fresh =
      if-IsFresh (not analysis.failed) _ _
        (IsFreshIn-put host s.docs uri doc analysis s.analyses opened made fresh) fresh

  conclude-IsFresh :
      (uri : Text) (doc : Doc) (e : Entry Value) (analysis : Analysis Error Parsed)
      (failure : Option Text) (s : Server Value Inst Error Parsed)
      → get_doc s.docs uri ≡ some doc
      → IsMadeFrom host doc analysis
      → IsFresh host s
      → IsFresh host (conclude host uri doc e analysis failure s).0
  conclude-IsFresh uri doc e analysis none s opened made fresh =
      publish-IsFresh uri doc analysis s opened made fresh
  conclude-IsFresh uri doc e analysis (some failure) s opened made fresh = fresh

  analyze_with-IsFresh :
      (uri : Text) (doc : Doc) (e : Entry Value) (inst : Inst)
      (parsed : (Recovery Error Parsed × Collected) ⊎ Text) (s : Server Value Inst Error Parsed)
      → host.parse inst doc.text ≡ parsed
      → get_doc s.docs uri ≡ some doc
      → IsFresh host s
      → IsFresh host (analyze_with host uri doc e parsed s).0
  analyze_with-IsFresh uri doc e inst (inr failure) s parse opened fresh = fresh
  analyze_with-IsFresh uri doc e inst (inl (recovery, collected)) s parse opened fresh =
      let analysis = analyze host.same_error host.read_error recovery collected e doc in
      conclude-IsFresh uri doc e analysis (internal_failure host analysis) s opened
        (inst, e, recovery, collected, parse, refl) fresh

  with_instance-IsFresh :
      (uri : Text) (doc : Doc) (e : Entry Value) (answer : Answer Inst Text)
      (s : Server Value Inst Error Parsed)
      → get_doc s.docs uri ≡ some doc
      → IsFresh host s
      → IsFresh host (with_instance host uri doc e answer s).0
  with_instance-IsFresh uri doc e disabled s opened fresh = fresh
  with_instance-IsFresh uri doc e (failed error) s opened fresh = fresh
  with_instance-IsFresh uri doc e (ready inst) s opened fresh =
      analyze_with-IsFresh uri doc e inst (host.parse inst doc.text) s refl opened fresh

  within_limit-IsFresh :
      (uri : Text) (doc : Doc) (e : Entry Value) (limit : Option ℕ)
      (s : Server Value Inst Error Parsed)
      → get_doc s.docs uri ≡ some doc
      → IsFresh host s
      → IsFresh host (within_limit host uri doc e limit s).0
  within_limit-IsFresh uri doc e (some limit) s opened fresh =
      IsFreshIn-erase host s.docs s.docs uri s.analyses (λ other apart. refl) fresh
  within_limit-IsFresh uri doc e none s opened fresh =
      let (instances, answer) = get_instance host e s in
      with_instance-IsFresh uri doc e answer (record s { instances = instances }) opened fresh

  run_on-IsFresh :
      (uri : Text) (found : Option Doc) (s : Server Value Inst Error Parsed)
      → get_doc s.docs uri ≡ found
      → IsFresh host s
      → IsFresh host (run_on host uri found s).0
  run_on-IsFresh uri none s opened fresh = fresh
  run_on-IsFresh uri (some doc) s opened fresh = routed-IsFresh (served host doc s)
    where
      routed-IsFresh : (route : Option (Entry Value)) → IsFresh host (routed host uri doc route s).0
      routed-IsFresh none = if_turn-IsFresh (holds uri s.published) _ (s, []) fresh fresh
      routed-IsFresh (some e) = within_limit-IsFresh uri doc e _ s opened fresh

  pub run_analysis-IsFresh :
      (uri : Text) (s : Server Value Inst Error Parsed)
      → IsFresh host s
      → IsFresh host (run_analysis host uri s).0
  unfolding run_analysis
  run_analysis-IsFresh uri s fresh = run_on-IsFresh uri (get_doc s.docs uri) s refl fresh

  pub run_all-IsFresh :
      (due : List (ℕ × Text)) (s : Server Value Inst Error Parsed)
      → IsFresh host s
      → IsFresh host (run_all host due s).0
  unfolding run_all
  run_all-IsFresh [] s fresh = fresh
  run_all-IsFresh ((at, uri) ∷ due) s fresh =
      let before = record s { pending = erase text_eq uri s.pending } in
      run_all-IsFresh due (run_analysis host uri before).0 (run_analysis-IsFresh uri before fresh)

  pub analyze_due-IsFresh :
      (now : ℕ) (s : Server Value Inst Error Parsed)
      → IsFresh host s
      → IsFresh host (analyze_due host now s).0
  unfolding analyze_due
  analyze_due-IsFresh now s fresh = run_all-IsFresh (due_by host now s) s fresh

  pub flush-IsFresh :
      (s : Server Value Inst Error Parsed) → IsFresh host s → IsFresh host (flush host s).0
  unfolding flush
  flush-IsFresh s fresh =
      run_all-IsFresh (sort due_order (map deadline_first s.pending)) (record s { pending = [] })
        fresh
