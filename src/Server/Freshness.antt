-- ===== src/Server/Freshness.antt =====
-- rs/src/server.rs: a cached analysis is that of the open document as it is, whatever happens to the store and the cache.
use lsp.Base.{◌≡◌, sym, ap, ◌∙◌, subst, false, Bool-cases, inl, inr, Option, none, some, List}
use lsp.Base.Text.{Text, text_eq, text_eq_sound, text_eq_reflexive}
use lsp.Base.Maps.{
  lookup, erase, put, lookup-erase_same, lookup-erase_other, lookup-put_same, lookup-put_other,
}
use lsp.Types.{ℤ, Doc}
use lsp.Documents.Store.{
  DocumentStore, get_doc, open_doc, change_doc, close_doc, store_keeps_others,
}
use lsp.Registry.Entries.{Entry}
use lsp.Instances.Mux.{Collected}
use lsp.Analyze.{Analysis, Recovery, analyze}
use lsp.Server.State.{Host, Server}

module _ {Value Inst Error Parsed : Type 0} (host : Host Value Inst Error Parsed) where
  -- an analysis of the document: of a parse of its text by some instance, for some entry
  abbrev pub IsMadeFrom : Doc → Analysis Error Parsed → Type 0
  IsMadeFrom doc analysis =
      (inst : Inst) × (e : Entry Value) × (recovery : Recovery Error Parsed)
      × (collected : Collected) × (host.parse inst doc.text ≡ inl (recovery, collected))
      × (analysis ≡ analyze host.same_error host.read_error recovery collected e doc)

  abbrev pub Cache : Type 0
  Cache = List (Text × (ℤ × Analysis Error Parsed))

  -- every cached analysis is of the document that is open under its URI, in its version
  abbrev pub IsFreshIn : DocumentStore → Cache → Type 0
  IsFreshIn docs analyses =
      (uri : Text) (version : ℤ) (analysis : Analysis Error Parsed)
      → lookup text_eq uri analyses ≡ some (version, analysis)
      → (doc : Doc) × (get_doc docs uri ≡ some doc)
        × (version ≡ doc.version)
        × IsMadeFrom doc analysis

  abbrev pub IsFresh : Server Value Inst Error Parsed → Type 0
  IsFresh s = IsFreshIn s.docs s.analyses

  nothing_cached :
      (found : ℤ × Analysis Error Parsed) (o : Option (ℤ × Analysis Error Parsed))
      → o ≡ none
      → o ≡ some found
      → ⊥
  nothing_cached found o h k = cc

  -- where the store agrees at the other URIs, forgetting one URI is enough
  pub IsFreshIn-erase :
      (docs docs' : DocumentStore) (uri : Text) (analyses : Cache)
      → ((other : Text) → text_eq uri other ≡ false → get_doc docs' other ≡ get_doc docs other)
      → IsFreshIn docs analyses
      → IsFreshIn docs' (erase text_eq uri analyses)
  IsFreshIn-erase docs docs' uri analyses kept fresh other version analysis found =
      elim (Bool-cases (text_eq uri other)) [
        | inl same ↦
            let gone =
              ap (λ (k : Text). lookup text_eq k (erase text_eq uri analyses))
                (sym (text_eq_sound uri other same))
              ∙ lookup-erase_same text_eq uri analyses in
            absurd (nothing_cached (version, analysis) _ gone found)
        | inr apart ↦
            let before =
              sym (
                lookup-erase_other text_eq text_eq_sound text_eq_reflexive uri other analyses apart)
              ∙ found in
            let (doc, opened, current, made) = fresh other version analysis before in
            (doc, kept other apart ∙ opened, current, made)
      ]

  pub IsFreshIn-put :
      (docs : DocumentStore) (uri : Text) (doc : Doc) (analysis : Analysis Error Parsed)
      (analyses : Cache)
      → get_doc docs uri ≡ some doc
      → IsMadeFrom doc analysis
      → IsFreshIn docs analyses
      → IsFreshIn docs (put text_eq uri (doc.version, analysis) analyses)
  IsFreshIn-put docs uri doc analysis analyses opened made fresh other version cached found =
      elim (Bool-cases (text_eq uri other)) [
        | inl same ↦
            let key = text_eq_sound uri other same in
            let there =
              sym (
                lookup-put_same text_eq text_eq_sound text_eq_reflexive uri (doc.version, analysis)
                  analyses)
              ∙ ap
                  (λ (k : Text).
                    lookup text_eq k (put text_eq uri (doc.version, analysis) analyses))
                  key
              ∙ found in
            let (v, a) = both doc.version version analysis cached there in
            (
              doc,
              ap (get_doc docs) (sym key) ∙ opened,
              sym v,
              subst (λ (x : Analysis Error Parsed). IsMadeFrom doc x) a made,
            )
        | inr apart ↦ fresh other version cached (
            sym (
              lookup-put_other text_eq text_eq_sound text_eq_reflexive uri other
                (doc.version, analysis) analyses apart)
            ∙ found)
      ]
    where
      both :
          (v w : ℤ) (a b : Analysis Error Parsed)
          → ◌≡◌ {A = Option (ℤ × Analysis Error Parsed)} (some (v, a)) (some (w, b))
          → (v ≡ w) × (a ≡ b)
      both v w a b h = (cc, cc)

  -- opening what is not open
  pub IsFreshIn-open_doc :
      (docs : DocumentStore) (uri language_id : Text) (version : ℤ) (text : Text) (analyses : Cache)
      → get_doc docs uri ≡ none
      → IsFreshIn docs analyses
      → IsFreshIn (open_doc docs uri language_id version text) analyses
  IsFreshIn-open_doc docs uri language_id version text analyses closed fresh other v cached found =
      let (doc, opened, current, made) = fresh other v cached found in
      elim (Bool-cases (text_eq uri other)) [
        | inl same ↦ absurd (
            not_open doc (get_doc docs other)
              (ap (get_doc docs) (sym (text_eq_sound uri other same)) ∙ closed) opened)
        | inr apart ↦ (
          doc,
          (store_keeps_others docs uri language_id version text (λ d. d) other apart).0 ∙ opened,
          current,
          made,
        )
      ]
    where
      not_open : (doc : Doc) (o : Option Doc) → o ≡ none → o ≡ some doc → ⊥
      not_open doc o h k = cc

  pub IsFreshIn-change_doc :
      (docs : DocumentStore) (uri : Text) (change : Doc → Doc) (analyses : Cache)
      → IsFreshIn docs analyses
      → IsFreshIn (change_doc docs uri change) (erase text_eq uri analyses)
  IsFreshIn-change_doc docs uri change analyses fresh =
      IsFreshIn-erase docs (change_doc docs uri change) uri analyses
        (λ other apart. (store_keeps_others docs uri uri (ℤ.pos 0) uri change other apart).1) fresh

  pub IsFreshIn-close_doc :
      (docs : DocumentStore) (uri : Text) (analyses : Cache)
      → IsFreshIn docs analyses
      → IsFreshIn (close_doc docs uri).0 (erase text_eq uri analyses)
  IsFreshIn-close_doc docs uri analyses fresh =
      IsFreshIn-erase docs (close_doc docs uri).0 uri analyses
        (λ other apart. (store_keeps_others docs uri uri (ℤ.pos 0) uri (λ d. d) other apart).2)
        fresh
