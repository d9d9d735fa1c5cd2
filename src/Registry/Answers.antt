-- ===== src/Registry/Answers.antt =====
-- registry.rs: what `Router::resolve` may answer.
use lsp.Base.{
  ℕ, ◌≤◌, ◌≡◌, refl, sym, subst, Bool, true, false, ◌&&◌, Bool-cases, inl, inr, Option, none, some,
  List, [], ◌∷◌, ltb, find, All,
}
use lsp.Base.Text.{Text}
use lsp.Registry.Search.{find-All, All-filter}
use lsp.Registry.Paths.{ext_of, fs_path_of}
use lsp.Registry.Entries.{Entry, is_routable}
use lsp.Registry.Router.{
  Via, workspace_language_id, workspace_extension, by_language_id, by_extension, by_media_type,
  Resolution, Router, candidates, global_entry,
}
use lsp.Registry.Claimants.{first_claimant, claimed, tie_break-claimed}
use lsp.Registry.Routing.{
  ext_hits, claims, serves_id, by_ext, globally, find_claimant, first_of, resolve,
}
use lsp.Registry.Ranks.{rank}
use lsp.Registry.Precedence.{candidates-All, rank_if, find-candidates, no_find-candidates}

-- not through the workspace, by language id
abbrev IsElsewhere : Option Via → Type 0
IsElsewhere (some workspace_language_id) = ⊥
IsElsewhere (some _) = Unit
IsElsewhere none = Unit

and_left : (a b : Bool) → (a && b) ≡ true → a ≡ true
and_left true b h = refl
and_left false b h = cc

module _ {Value : Type 0} where
  -- whatever is answered satisfies `P`
  abbrev pub Answers : (Entry Value → Type 0) → Option (Entry Value) → Type 0
  Answers P none = Unit
  Answers P (some e) = P e

  abbrev pub IsRoutable : Entry Value → Type 0
  IsRoutable e = is_routable e ≡ true

  claimed-IsRoutable :
      (hits : Entry Value → ℕ) (es : List (Entry Value))
      → Answers IsRoutable (claimed hits by_extension (first_claimant hits es)).entry
        × IsElsewhere (claimed hits by_extension (first_claimant hits es)).via
  unfolding first_claimant
  claimed-IsRoutable hits [] = (tt, tt)
  claimed-IsRoutable hits (e ∷ es) = elim (Bool-cases (is_routable e && ltb 0 (hits e))) [
    | inl t ↦ rw t (and_left (is_routable e) (ltb 0 (hits e)) t, tt)
    | inr t ↦ rw t (claimed-IsRoutable hits es)
  ]

  -- what an answer of the global tiers is
  abbrev IsGlobal : Resolution Value → Type 0
  IsGlobal answer = Answers IsRoutable answer.entry × IsElsewhere answer.via

  by_ext-IsGlobal :
      (to_lowercase : Text → Text) (r : Router Value) (ext : Option Text)
      → IsGlobal (by_ext to_lowercase r ext)
  unfolding by_ext
  by_ext-IsGlobal to_lowercase r none = (tt, tt)
  by_ext-IsGlobal to_lowercase r (some ext) =
      let hits : Entry Value → ℕ = λ e. ext_hits to_lowercase ext e.extensions in
      subst IsGlobal (sym (tie_break-claimed r.global hits by_extension))
        (claimed-IsRoutable hits r.global)

  globally-IsGlobal :
      (to_lowercase : Text → Text) (r : Router Value) (direct : Option (Entry Value))
      (ext : Option Text)
      → IsGlobal (globally to_lowercase r direct ext)
  unfolding globally
  globally-IsGlobal to_lowercase r none ext = by_ext-IsGlobal to_lowercase r ext
  globally-IsGlobal to_lowercase r (some direct) ext = elim (Bool-cases (is_routable direct)) [
    | inl t ↦ rw t (t, tt)
    | inr t ↦ rw t (by_ext-IsGlobal to_lowercase r ext)
  ]

  claimant-IsRoutable :
      (to_lowercase : Text → Text) (r : Router Value) (fs_path ext : Option Text)
      (o : Option (Entry Value))
      → find_claimant to_lowercase (candidates r fs_path) ext ≡ o
      → Answers IsRoutable o
  claimant-IsRoutable to_lowercase r fs_path none o h = subst (Answers IsRoutable) h tt
  claimant-IsRoutable to_lowercase r fs_path (some ext) none h = tt
  claimant-IsRoutable to_lowercase r fs_path (some ext) (some e) h =
      (find-All IsRoutable (λ (d : Entry Value). claims to_lowercase d.extensions ext)
        (candidates r fs_path) e h
        (candidates-All fs_path r IsRoutable
          (All-filter IsRoutable is_routable r.workspace (λ d t. t)))).1

  -- how specific an answer by the workspace's language ids is
  abbrev pub entry_rank : Option Text → Option (Entry Value) → Option Via → ℕ
  entry_rank fs_path (some e) (some workspace_language_id) = rank fs_path e
  entry_rank fs_path _ _ = 0

  elsewhere_rank :
      (fs_path : Option Text) (o : Option (Entry Value)) (via : Option Via)
      → IsElsewhere via
      → entry_rank fs_path o via ≡ 0
  elsewhere_rank fs_path (some e) (some workspace_language_id) h = absurd h
  elsewhere_rank fs_path (some e) (some workspace_extension) h = refl
  elsewhere_rank fs_path (some e) (some by_language_id) h = refl
  elsewhere_rank fs_path (some e) (some by_extension) h = refl
  elsewhere_rank fs_path (some e) (some by_media_type) h = refl
  elsewhere_rank fs_path (some e) none h = refl
  elsewhere_rank fs_path none via h = refl

  abbrev pub IsMostSpecific : Router Value → Option Text → Text → Resolution Value → Type 0
  IsMostSpecific r fs_path id answer =
      Answers IsRoutable answer.entry
      × All (λ d. rank_if fs_path r (serves_id id) d ≤ entry_rank fs_path answer.entry answer.via)
          r.workspace

  first_of-IsMostSpecific :
      (r : Router Value) (fs_path : Option Text) (id : Text)
      (by_name by_claim : Option (Entry Value)) (rest : Resolution Value)
      → find (serves_id id) (candidates r fs_path) ≡ by_name
      → Answers IsRoutable by_claim
      → IsGlobal rest
      → IsMostSpecific r fs_path id (first_of by_name by_claim rest)
  first_of-IsMostSpecific r fs_path id (some e) by_claim rest h claimant global =
      let (routable, served, greatest) = find-candidates fs_path r (serves_id id) e h in
      (routable, greatest)
  first_of-IsMostSpecific r fs_path id none (some e) rest h claimant global =
      (claimant, no_find-candidates fs_path r (serves_id id) h)
  first_of-IsMostSpecific r fs_path id none none rest h claimant global = (
    global.0,
    rw (elsewhere_rank fs_path rest.entry rest.via global.1)
        (no_find-candidates fs_path r (serves_id id) h),
  )

  -- Whatever a document resolves to can be routed to, and no workspace entry that can be routed
  -- to, has the client's language id and has a scope around the document is more specific than the
  -- answer: the longest containing folder wins over a shorter one, and that over no folder.
  pub resolve-IsMostSpecific :
      (to_lowercase : Text → Text) (r : Router Value) (id uri : Text)
      → IsMostSpecific r (fs_path_of uri) id (resolve to_lowercase r id uri)
  unfolding resolve
  resolve-IsMostSpecific to_lowercase r id uri =
      first_of-IsMostSpecific r (fs_path_of uri) id
        (find (serves_id id) (candidates r (fs_path_of uri)))
        (find_claimant to_lowercase (candidates r (fs_path_of uri)) (ext_of to_lowercase uri))
        (globally to_lowercase r (global_entry r id) (ext_of to_lowercase uri)) refl
        (claimant-IsRoutable to_lowercase r (fs_path_of uri) (ext_of to_lowercase uri) _ refl)
        (globally-IsGlobal to_lowercase r (global_entry r id) (ext_of to_lowercase uri))
