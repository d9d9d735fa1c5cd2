-- ===== src/Registry/Ranks.antt =====
-- registry.rs: how specifically a workspace entry applies to a document, as `candidates` measures it.
use lsp.Base.{
  ℕ, ◌+◌, ◌≤◌, ◌≡◌, refl, true, Bool-cases, inl, inr, Option, none, some, List, [], ◌∷◌, ◌++◌, map,
  if◌then◌else◌, arith, All, All-append,
}
use lsp.Base.Text.{Text}
use lsp.Documents.{utf16_len}
use lsp.Registry.Search.{IsFalling}
use lsp.Registry.Paths.{contains_path}
use lsp.Registry.Entries.{Entry, scope_of}
use lsp.Registry.Router.{scoped_in, measured, is_unscoped}

-- how specifically a scope applies to a document: not at all, everywhere, or by the length of a folder that holds it
abbrev pub specificity : Option Text → Option Text → ℕ
specificity none fs_path = 1
specificity (some scope) none = 0
specificity (some scope) (some path) = if contains_path scope path then 2 + utf16_len scope else 0

pub All-split :
    {A : Type 0} (P : A → Type 0) (xs ys : List A) → All P (xs ++ ys) → All P xs × All P ys
All-split P [] ys h = (tt, h)
All-split P (x ∷ xs) ys h = let (a, b) = All-split P xs ys h.1 in ((h.0, a), b)

module _ {Value : Type 0} where
  abbrev pub of_pair : Entry Value × ℕ → Entry Value
  of_pair p = p.0

  pub All-of_pair :
      (P : Entry Value → Type 0) (ps : List (Entry Value × ℕ))
      → All (λ p. P (of_pair p)) ps
      → All P (map of_pair ps)
  All-of_pair P [] h = tt
  All-of_pair P (p ∷ ps) h = (h.0, All-of_pair P ps h.1)

  pub of_pair-All :
      (P : Entry Value → Type 0) (ps : List (Entry Value × ℕ))
      → All P (map of_pair ps)
      → All (λ p. P (of_pair p)) ps
  of_pair-All P [] h = tt
  of_pair-All P (p ∷ ps) h = (h.0, of_pair-All P ps h.1)

module _ {Value : Type 0} (fs_path : Option Text) where
  abbrev pub rank : Entry Value → ℕ
  rank e = specificity (scope_of e) fs_path

  abbrev pub Measured : Entry Value × ℕ → Type 0
  Measured p = rank p.0 ≡ 2 + p.1

  measured-Measured :
      (scope : Option Text) (path : Text) (e : Entry Value)
      → scope_of e ≡ scope
      → fs_path ≡ some path
      → All Measured (measured scope path e)
  measured-Measured none path e h at = tt
  measured-Measured (some scope) path e h at = elim (Bool-cases (contains_path scope path)) [
    | inl t ↦ rw t ((rw (h, at, t) refl), tt)
    | inr t ↦ rw t tt
  ]

  pub scoped_in-Measured :
      (o : Option Text) (es : List (Entry Value)) → fs_path ≡ o → All Measured (scoped_in o es)
  unfolding scoped_in
  scoped_in-Measured none es at = tt
  scoped_in-Measured (some path) [] at = tt
  scoped_in-Measured (some path) (e ∷ es) at =
      All-append Measured (measured (scope_of e) path e) (scoped_in (some path) es)
        (measured-Measured (scope_of e) path e refl at) (scoped_in-Measured (some path) es at)

  pub Measured-IsFalling :
      (ps : List (Entry Value × ℕ))
      → All Measured ps
      → IsFalling (λ (p : Entry Value × ℕ). p.1) ps
      → IsFalling rank (map (λ (p : Entry Value × ℕ). p.0) ps)
        × All (λ e. 2 ≤ rank e) (map (λ (p : Entry Value × ℕ). p.0) ps)
  Measured-IsFalling [] all falls = (tt, tt)
  Measured-IsFalling (p ∷ ps) all falls =
      let (rest, above) = Measured-IsFalling ps all.1 falls.1 in
      let here = all.0 in ((below ps all.1 falls.0, rest), (omega (arith, here), above))
    where
      below :
          (qs : List (Entry Value × ℕ))
          → All Measured qs
          → All (λ q. q.1 ≤ p.1) qs
          → All (λ e. rank e ≤ rank p.0) (map (λ (q : Entry Value × ℕ). q.0) qs)
      below [] m le = tt
      below (q ∷ qs) m le = (omega (arith, all.0, m.0, le.0), below qs m.1 le.1)

  pub unscoped-rank : (e : Entry Value) → is_unscoped (scope_of e) ≡ true → rank e ≡ 1
  unscoped-rank e h = go (scope_of e) h
    where
      go : (scope : Option Text) → is_unscoped scope ≡ true → specificity scope fs_path ≡ 1
      go none h = refl
      go (some scope) h = cc
