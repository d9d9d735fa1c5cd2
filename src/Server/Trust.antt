-- ===== src/Server/Trust.antt =====
-- rs/src/server.rs: what an untrusted server makes of the workspace's own modules.
use lsp.Base.{
  ℕ, ◌≡◌, refl, sym, ap, ◌∙◌, Bool, true, false, ◌&&◌, Bool-cases, ◌⊎◌, inl, inr, Option, none,
  some, List, [], ◌∷◌, ◌++◌, map,
}
use lsp.Base.Sort.{sort}
use lsp.Base.Text.{Text, text_eq, byte_len}
use lsp.Base.Maps.{erase}
use lsp.Types.{Position, Doc}
use lsp.Documents.Store.{DocumentStore, get_doc}
use lsp.Registry.Entries.{Entry, Load, module_named, grammar_file, spec, is_workspace, load}
use lsp.Registry.Router.{Router}
use lsp.Instances.Cache.{Instances, Answer, disabled, ready, failed, get, get_under, key}
use lsp.Instances.Mux.{Collected}
use lsp.Analyze.{Analysis, Recovery, analyze}
use lsp.Completion.{CompletionItem}
use lsp.Server.State.{Host, Server, Outgoing, Reply, completion_items}
use lsp.Server.Analyses.{
  Turn, gated, gated_make_instance, internal_of, internal_failure, over, conclude, analyze_with,
  with_instance, get_instance, within_limit, routed, served, run_on, run_analysis,
}
use lsp.Server.Due.{run_all, due_order, deadline_first, due_by, analyze_due, flush}
use lsp.Server.Queries.{offered, complete_within, complete_with, complete_on, completion_at}
use lsp.Server.Untouched.{settings-run_analysis}

abbrev pub is_module : {Value : Type 0} → Load Value → Bool
is_module (module_named name) = true
is_module _ = false

-- an entry of the workspace that runs a module of it
unfoldable pub runs_workspace_code : {Value : Type 0} → Entry Value → Bool
runs_workspace_code e = is_workspace e && is_module (load e)

-- the host with another maker of instances
abbrev pub made_by :
    {Value Inst Error Parsed : Type 0}
    → (Entry Value → Text ⊎ Inst)
    → Host Value Inst Error Parsed
    → Host Value Inst Error Parsed
made_by make host = record host { make_instance = make }

and_false : (b : Bool) → b && false ≡ false
and_false true = refl
and_false false = refl

module _ {Value Inst Error Parsed : Type 0} (host : Host Value Inst Error Parsed)
    (make : Entry Value → Text ⊎ Inst)
    (agrees : (e : Entry Value)
      → runs_workspace_code e ≡ false
      → make e ≡ host.make_instance e) where
  gated_same :
      (trust : Bool) (e : Entry Value)
      → trust ≡ false
      → gated_make_instance host trust e ≡ gated_make_instance (made_by make host) trust e
  unfolding gated_make_instance runs_workspace_code
  gated_same true e h = absurd (apart h)
    where
      apart : true ≡ false → ⊥
      apart k = cc
  gated_same false e h = by_load (load e) (agrees e)
    where
      by_load :
          (l : Load Value)
          → (is_workspace e && is_module l ≡ false → make e ≡ host.make_instance e)
          → gated host false e l ≡ gated (made_by make host) false e l
      by_load (module_named name) same = elim (Bool-cases (is_workspace e)) [
        | inl w ↦ rw w refl
        | inr w ↦ rw w (sym (same (rw w refl)))
      ]
      by_load (grammar_file path) same = sym (same (and_false (is_workspace e)))
      by_load (spec source) same = sym (same (and_false (is_workspace e)))

  get_instance_same :
      (e : Entry Value) (s : Server Value Inst Error Parsed)
      → s.trust ≡ false
      → get_instance host e s ≡ get_instance (made_by make host) e s
  unfolding get
  get_instance_same e s untrusted =
      ap
        (λ (made : Text ⊎ Inst). get_under host.install made s.instances (key host.identity e none))
        (gated_same s.trust e untrusted)

  internal_of_same :
      (errors : List Error) → internal_of host errors ≡ internal_of (made_by make host) errors
  unfolding internal_of
  internal_of_same [] = refl
  internal_of_same (error ∷ errors) = rw (internal_of_same errors) refl

  conclude_same :
      (uri : Text) (doc : Doc) (e : Entry Value) (analysis : Analysis Error Parsed)
      (failure : Option Text) (s : Server Value Inst Error Parsed)
      → conclude host uri doc e analysis failure s
        ≡ conclude (made_by make host) uri doc e analysis failure s
  conclude_same uri doc e analysis none s = refl
  conclude_same uri doc e analysis (some failure) s = refl

  analyze_with_same :
      (uri : Text) (doc : Doc) (e : Entry Value)
      (parsed : (Recovery Error Parsed × Collected) ⊎ Text) (s : Server Value Inst Error Parsed)
      → analyze_with host uri doc e parsed s ≡ analyze_with (made_by make host) uri doc e parsed s
  unfolding internal_failure
  analyze_with_same uri doc e (inr failure) s = refl
  analyze_with_same uri doc e (inl (recovery, collected)) s =
      let analysis = analyze host.same_error host.read_error recovery collected e doc in
      ap (λ (failure : Option Text). conclude host uri doc e analysis failure s)
        (internal_of_same analysis.errors)
      ∙ conclude_same uri doc e analysis (internal_of (made_by make host) analysis.errors) s

  with_instance_same :
      (uri : Text) (doc : Doc) (e : Entry Value) (answer : Answer Inst Text)
      (s : Server Value Inst Error Parsed)
      → with_instance host uri doc e answer s ≡ with_instance (made_by make host) uri doc e answer s
  with_instance_same uri doc e disabled s = refl
  with_instance_same uri doc e (failed error) s = refl
  with_instance_same uri doc e (ready inst) s =
      analyze_with_same uri doc e (host.parse inst doc.text) s

  within_limit_same :
      (uri : Text) (doc : Doc) (e : Entry Value) (limit : Option ℕ)
      (s : Server Value Inst Error Parsed)
      → s.trust ≡ false
      → within_limit host uri doc e limit s ≡ within_limit (made_by make host) uri doc e limit s
  within_limit_same uri doc e (some limit) s untrusted = refl
  within_limit_same uri doc e none s untrusted =
      ap
        (λ (got : Instances Inst × Answer Inst Text).
          with_instance host uri doc e got.1 (record s { instances = got.0 }))
        (get_instance_same e s untrusted)
      ∙ with_instance_same uri doc e (get_instance (made_by make host) e s).1 _

  run_on_same :
      (uri : Text) (found : Option Doc) (s : Server Value Inst Error Parsed)
      → s.trust ≡ false
      → run_on host uri found s ≡ run_on (made_by make host) uri found s
  unfolding served
  run_on_same uri none s untrusted = refl
  run_on_same uri (some doc) s untrusted = routed_same (served host doc s)
    where
      routed_same :
          (route : Option (Entry Value))
          → routed host uri doc route s ≡ routed (made_by make host) uri doc route s
      routed_same none = refl
      routed_same (some e) =
          within_limit_same uri doc e (over s.config.max_document_bytes (byte_len doc.text)) s
            untrusted

  run_all_same :
      (due : List (ℕ × Text)) (s : Server Value Inst Error Parsed)
      → s.trust ≡ false
      → run_all host due s ≡ run_all (made_by make host) due s
  unfolding run_all run_analysis
  run_all_same [] s untrusted = refl
  run_all_same ((at, uri) ∷ due) s untrusted =
      let before = record s { pending = erase text_eq uri s.pending } in
      let other = run_analysis (made_by make host) uri before in
      let one = run_on_same uri (get_doc s.docs uri) before untrusted in
      let kept =
        ap (λ (x : List (Text × ℕ) × (Bool × (DocumentStore × Router Value))). x.1.0)
          (settings-run_analysis (made_by make host) uri before)
        ∙ untrusted in
      ap (λ (x : Turn host). ((run_all host due x.0).0, x.1 ++ (run_all host due x.0).1)) one
      ∙ ap (λ (x : Turn host). (x.0, other.1 ++ x.1)) (run_all_same due other.0 kept)

  complete_on_same :
      (found : Option Doc) (position : Position) (s : Server Value Inst Error Parsed)
      → s.trust ≡ false
      → complete_on host found position s ≡ complete_on (made_by make host) found position s
  unfolding served
  complete_on_same none position s untrusted = refl
  complete_on_same (some doc) position s untrusted = served_same (served host doc s)
    where
      ended : Instances Inst → List CompletionItem × List (Outgoing Value) → Turn host × Reply
      ended instances found =
          ((record s { instances = instances }, found.1), completion_items found.0)

      offered_same :
          (e : Entry Value) (answer : Answer Inst Text)
          → offered host e doc position answer ≡ offered (made_by make host) e doc position answer
      offered_same e disabled = refl
      offered_same e (failed error) = refl
      offered_same e (ready inst) = refl

      within_same :
          (e : Entry Value) (limit : Option ℕ)
          → complete_within host doc position e limit s
            ≡ complete_within (made_by make host) doc position e limit s
      within_same e (some limit) = refl
      within_same e none =
          let other = (get_instance (made_by make host) e s).1 in
          ap
            (λ (got : Instances Inst × Answer Inst Text).
              ended got.0 (offered host e doc position got.1))
            (get_instance_same e s untrusted)
          ∙ ap (ended (get_instance (made_by make host) e s).0) (offered_same e other)

      served_same :
          (route : Option (Entry Value))
          → complete_with host doc position route s
            ≡ complete_with (made_by make host) doc position route s
      served_same none = refl
      served_same (some e) = within_same e (over s.config.max_document_bytes (byte_len doc.text))

  -- An untrusted server comes to the same states and sends the same, in its analyses and
  -- completions, whatever the host would make of the workspace entries that load a module: it
  -- never makes an instance of one.
  pub untrusted_runs_no_workspace_code :
      (now : ℕ) (uri : Text) (position : Position) (s : Server Value Inst Error Parsed)
      → s.trust ≡ false
      → (analyze_due host now s ≡ analyze_due (made_by make host) now s)
        × (flush host s ≡ flush (made_by make host) s)
        × (completion_at host uri position s ≡ completion_at (made_by make host) uri position s)
  unfolding analyze_due flush completion_at
  untrusted_runs_no_workspace_code now uri position s untrusted = (
    run_all_same (due_by host now s) s untrusted,
    run_all_same (sort due_order (map deadline_first s.pending)) (record s { pending = [] })
        untrusted,
    complete_on_same (get_doc s.docs uri) position s untrusted,
  )
