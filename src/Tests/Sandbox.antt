-- ===== src/Tests/Sandbox.antt =====
-- The theorems on the sandbox of grammar files, at inputs that meet their hypotheses.
use lsp.Base.{
  ◌≡◌, refl, true, false, ◌⊎◌, inl, inr, Option, none, some, List, [], ◌∷◌, ◌++◌, All, sym, ap,
  subst, if◌then◌else◌,
}
use lsp.Base.Text.{Text, codes, text_eq}
use lsp.Loaders.{
  FilePath, root_dir, cur_dir, parent_dir, normal, components, absolute, lexical_resolve, real_in,
  resolve_from, resolve_sandboxed,
}
use lsp.Loaders.Components.{IsNormal, IsReal}
use lsp.Loaders.Sandbox.{stays_below, resolve_sandboxed-below}
use lsp.Loaders.Inside.{IsBelow, resolve_sandboxed-IsBelow}

-- a host without symbolic links, where every name exists
abbrev names_of : FilePath → FilePath
names_of [] = []
names_of (normal part ∷ path) = normal part ∷ names_of path
names_of (_ ∷ path) = names_of path

abbrev no_links : FilePath → FilePath ⊎ Text
no_links path = inl (root_dir ∷ names_of path)

names_of-IsNormal : (path : FilePath) → All IsNormal (names_of path)
names_of-IsNormal [] = tt
names_of-IsNormal (normal part ∷ path) = (tt, names_of-IsNormal path)
names_of-IsNormal (root_dir ∷ path) = names_of-IsNormal path
names_of-IsNormal (cur_dir ∷ path) = names_of-IsNormal path
names_of-IsNormal (parent_dir ∷ path) = names_of-IsNormal path

inl-eq : (p q : FilePath) → ◌≡◌ {A = FilePath ⊎ Text} (inl p) (inl q) → p ≡ q
inl-eq p q h = cc

no_links-IsReal : (p q : FilePath) → no_links p ≡ inl q → IsReal q
no_links-IsReal p q h =
    subst (λ path. IsReal path) (inl-eq (root_dir ∷ names_of p) q h) (names_of-IsNormal p)

abbrev folder : FilePath
folder = root_dir ∷ normal (codes "ws") ∷ []

-- "x/../g"
abbrev grammar : Text
grammar = codes "x/../g"

resolve_sandboxed-below_example :
    (resolve_sandboxed no_links (some folder) grammar (some folder)
      ≡ real_in grammar folder (no_links (folder ++ resolve_from [] (components grammar))))
    × All IsNormal (resolve_from [] (components grammar))
unfolding absolute lexical_resolve components lsp.Loaders.split lsp.Loaders.components_from text_eq
    lsp.Loaders.is_absolute lsp.Loaders.resolve_component lsp.Loaders.pop resolve_from stays_below
resolve_sandboxed-below_example =
    resolve_sandboxed-below no_links (some folder) grammar folder folder refl (tt, tt) refl

resolve_sandboxed-IsBelow_example :
    (base : FilePath) × (no_links (absolute (some folder) folder) ≡ inl base)
    × (no_links (lexical_resolve base (components grammar))
        ≡ inl (folder ++ normal (codes "g") ∷ []))
    × IsBelow base (folder ++ normal (codes "g") ∷ [])
unfolding resolve_sandboxed absolute lexical_resolve components lsp.Loaders.split
    lsp.Loaders.components_from text_eq lsp.Loaders.is_absolute lsp.Loaders.resolve_component
    lsp.Loaders.pop resolve_from lsp.Loaders.join lsp.Loaders.is_inside lsp.Loaders.same_component
    lsp.Base.filter
resolve_sandboxed-IsBelow_example =
    resolve_sandboxed-IsBelow no_links no_links-IsReal (some folder) grammar folder
      (folder ++ normal (codes "g") ∷ []) refl
