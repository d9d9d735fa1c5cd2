-- ===== src/Loaders/Sandbox.antt =====
-- rs/src/loaders.rs: `resolve_sandboxed` of a file that its path keeps in the folder.
use lsp.Base.{
  ℕ, zero, suc, ◌≡◌, refl, sym, ap, ◌∙◌, ◌⊎◌, inl, Bool, true, false, not, Option, some, [], ◌∷◌,
  ◌++◌, append_assoc, append-nil, arith, filter, All, All-append, length, length-append,
}
use lsp.Base.Text.{Text}
use lsp.Loaders.Components.{IsNormal, IsReal, clash, is_inside_complete}
use lsp.Loaders.{
  Component, root_dir, cur_dir, parent_dir, normal, FilePath, components, is_absolute, is_cur_dir,
  join, pop, resolve_component, resolve_from, lexical_resolve, absolute, real_in, resolve_sandboxed,
}

-- a relative path that, from `depth` names below a folder, never leaves the folder
unfoldable pub stays_below : ℕ → FilePath → Bool
stays_below depth [] = true
stays_below depth (root_dir ∷ path) = false
stays_below depth (cur_dir ∷ path) = stays_below depth path
stays_below zero (parent_dir ∷ path) = false
stays_below (suc depth) (parent_dir ∷ path) = stays_below depth path
stays_below depth (normal part ∷ path) = stays_below (suc depth) path

pop-append :
    (base : FilePath) (c : Component) (inner : FilePath)
    → pop (base ++ c ∷ inner) ≡ base ++ pop (c ∷ inner)
unfolding pop
pop-append [] c inner = refl
pop-append (b ∷ []) c inner = refl
pop-append (b ∷ d ∷ base) c inner = ap (◌∷◌ b) (pop-append (d ∷ base) c inner)

pop-IsNormal :
    (c : Component) (inner : FilePath)
    → All IsNormal (c ∷ inner)
    → All IsNormal (pop (c ∷ inner)) × (length (pop (c ∷ inner)) ≡ length inner)
unfolding pop
pop-IsNormal (normal part) [] h = (tt, refl)
pop-IsNormal root_dir [] h = absurd h.0
pop-IsNormal cur_dir [] h = absurd h.0
pop-IsNormal parent_dir [] h = absurd h.0
pop-IsNormal c (d ∷ inner) h =
    let (names, size) = pop-IsNormal d inner h.1 in ((h.0, names), ap suc size)

resolve_from_below :
    (base inner path : FilePath)
    → All IsNormal inner
    → stays_below (length inner) path ≡ true
    → (resolve_from (base ++ inner) path ≡ base ++ resolve_from inner path)
      × All IsNormal (resolve_from inner path)
unfolding resolve_from resolve_component stays_below
resolve_from_below base inner [] names h = (refl, names)
resolve_from_below base inner (root_dir ∷ path) names h = absurd (clash h)
resolve_from_below base inner (cur_dir ∷ path) names h = resolve_from_below base inner path names h
resolve_from_below base [] (parent_dir ∷ path) names h = absurd (clash h)
resolve_from_below base (c ∷ inner) (parent_dir ∷ path) names h =
    let (popped, size) = pop-IsNormal c inner names in
    let (e, kept) =
      resolve_from_below base (pop (c ∷ inner)) path popped
        (ap (λ (d : ℕ). stays_below d path) size ∙ h) in
    (ap (λ (out : FilePath). resolve_from out path) (pop-append base c inner) ∙ e, kept)
resolve_from_below base inner (normal part ∷ path) names h =
    let longer : length (inner ++ normal part ∷ []) ≡ suc (length inner) =
      omega (arith, length-append inner (normal part ∷ [])) in
    let (e, kept) =
      resolve_from_below base (inner ++ normal part ∷ []) path
        (All-append IsNormal inner (normal part ∷ []) names (tt, tt))
        (ap (λ (d : ℕ). stays_below d path) longer ∙ h) in
    (
      ap (λ (out : FilePath). resolve_from out path) (append_assoc base inner (normal part ∷ []))
          ∙ e,
      kept,
    )

resolve_from_names :
    (out names : FilePath) → All IsNormal names → resolve_from out names ≡ out ++ names
unfolding resolve_from resolve_component
resolve_from_names out [] h = sym (append-nil out)
resolve_from_names out (normal part ∷ names) h =
    resolve_from_names (out ++ normal part ∷ []) names h.1
    ∙ append_assoc out (normal part ∷ []) names
resolve_from_names out (root_dir ∷ names) h = absurd h.0
resolve_from_names out (cur_dir ∷ names) h = absurd h.0
resolve_from_names out (parent_dir ∷ names) h = absurd h.0

resolve_from-append :
    (out a b : FilePath) → resolve_from out (a ++ b) ≡ resolve_from (resolve_from out a) b
unfolding resolve_from
resolve_from-append out [] b = refl
resolve_from-append out (c ∷ a) b = resolve_from-append (resolve_component out c) a b

resolve_from-filter :
    (out path : FilePath)
    → resolve_from out (filter (λ x. not (is_cur_dir x)) path) ≡ resolve_from out path
unfolding resolve_from resolve_component filter
resolve_from-filter out [] = refl
resolve_from-filter out (root_dir ∷ path) = resolve_from-filter (root_dir ∷ []) path
resolve_from-filter out (cur_dir ∷ path) = resolve_from-filter out path
resolve_from-filter out (parent_dir ∷ path) = resolve_from-filter (pop out) path
resolve_from-filter out (normal part ∷ path) = resolve_from-filter (out ++ normal part ∷ []) path

stays_below-is_absolute : (path : FilePath) → stays_below 0 path ≡ true → is_absolute path ≡ false
unfolding stays_below is_absolute
stays_below-is_absolute [] h = refl
stays_below-is_absolute (root_dir ∷ path) h = absurd (clash h)
stays_below-is_absolute (cur_dir ∷ path) h = refl
stays_below-is_absolute (parent_dir ∷ path) h = refl
stays_below-is_absolute (normal part ∷ path) h = refl

-- From a real folder, a path that never leaves it is resolved below the folder.
lexical_resolve-below :
    (base path : FilePath)
    → IsReal base
    → stays_below 0 path ≡ true
    → (lexical_resolve base path ≡ base ++ resolve_from [] path)
      × All IsNormal (resolve_from [] path)
unfolding lexical_resolve join
lexical_resolve-below [] path real h = absurd real
lexical_resolve-below (cur_dir ∷ names) path real h = absurd real
lexical_resolve-below (parent_dir ∷ names) path real h = absurd real
lexical_resolve-below (normal part ∷ names) path real h = absurd real
lexical_resolve-below (root_dir ∷ names) path real h =
    let base = root_dir ∷ names in
    let (below, kept) = resolve_from_below base [] path tt h in
    (
      rw (stays_below-is_absolute path h) (
          resolve_from-append [] base (filter (λ x. not (is_cur_dir x)) path)
          ∙ ap (λ (out : FilePath). resolve_from out (filter (λ x. not (is_cur_dir x)) path))
              (resolve_from_names (root_dir ∷ []) names real)
          ∙ resolve_from-filter base path
          ∙ ap (λ (out : FilePath). resolve_from out path) (sym (append-nil base))
          ∙ below),
      kept,
    )

module _ (canonicalize : FilePath → FilePath ⊎ Text) (current_dir : Option FilePath) (file : Text)
    (dir base : FilePath) where
  -- Where the entry's folder has a real path that is absolute and has no `.` and no `..`, a file
  -- whose path never climbs out of the folder is resolved to names below it, and only its real
  -- path then decides: the file passes where that is inside the folder.
  pub resolve_sandboxed-below :
      canonicalize (absolute current_dir dir) ≡ inl base
      → IsReal base
      → stays_below 0 (components file) ≡ true
      → (resolve_sandboxed canonicalize current_dir file (some dir)
          ≡ real_in file base (canonicalize (base ++ resolve_from [] (components file))))
        × All IsNormal (resolve_from [] (components file))
  unfolding resolve_sandboxed
  resolve_sandboxed-below folder real stays =
      let (abs, kept) = lexical_resolve-below base (components file) real stays in
      (rw (folder, abs, is_inside_complete base (resolve_from [] (components file))) refl, kept)
