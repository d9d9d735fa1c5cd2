-- ===== src/Loaders/Inside.antt =====
-- rs/src/loaders.rs: every file that `resolve_sandboxed` lets through is inside its folder.
use lsp.Base.{
  ◌≡◌, refl, sym, subst, ◌∙◌, Bool-cases, Option, some, [], ◌∷◌, ◌++◌, ◌⊎◌, inl, inr, ap, All,
}
use lsp.Base.Text.{Text}
use lsp.Loaders.{
  FilePath, root_dir, cur_dir, parent_dir, normal, components, lexical_resolve, absolute, is_inside,
  SandboxError, escapes, escapes_by_symlink, real_in, resolve_in, resolve_sandboxed,
}
use lsp.Loaders.Components.{IsNormal, IsReal, is_inside_sound, All-append-right}

not_refused : (e : SandboxError) (p : FilePath) → inr e ≡ inl p → ⊥
not_refused e p h = cc

inl-eq : (p q : FilePath) → ◌≡◌ {A = FilePath ⊎ SandboxError} (inl p) (inl q) → p ≡ q
inl-eq p q h = cc

-- what is behind a real folder in a real path
behind-IsNormal :
    (base inner : FilePath) → IsReal base → IsReal (base ++ inner) → All IsNormal inner
behind-IsNormal [] inner base whole = absurd base
behind-IsNormal (root_dir ∷ base) inner real whole = All-append-right base inner whole
behind-IsNormal (cur_dir ∷ base) inner real whole = absurd real
behind-IsNormal (parent_dir ∷ base) inner real whole = absurd real
behind-IsNormal (normal part ∷ base) inner real whole = absurd real

-- a real path below a real folder
abbrev pub IsBelow : FilePath → FilePath → Type 0
IsBelow base real = (inner : FilePath) × (real ≡ base ++ inner) × All IsNormal inner

module _ (canonicalize : FilePath → FilePath ⊎ Text)
    (canonical : (p q : FilePath) → canonicalize p ≡ inl q → IsReal q) where
  real_in-IsBelow :
      (file : Text) (base abs real : FilePath) (found : FilePath ⊎ Text)
      → canonicalize abs ≡ found
      → IsReal base
      → real_in file base found ≡ inl real
      → (canonicalize abs ≡ inl real) × IsBelow base real
  real_in-IsBelow file base abs real (inr error) at whole h = absurd (not_refused _ real h)
  real_in-IsBelow file base abs real (inl p) at whole h = elim (Bool-cases (is_inside base p)) [
    | inr out ↦ absurd (not_refused (escapes_by_symlink file p) real (rw out at h))
    | inl into ↦
        let same : p ≡ real = inl-eq p real (rw into at h) in
        let (inner, e) = is_inside_sound base p into in
        (
          at ∙ ap inl same,
          (
            inner,
            sym same ∙ e,
            behind-IsNormal base inner whole (subst (λ q. IsReal q) e (canonical abs p at)),
          ),
        )
  ]

  resolve_in-IsBelow :
      (file : Text) (dir folder real : FilePath) (found : FilePath ⊎ Text)
      → canonicalize folder ≡ found
      → resolve_in canonicalize dir file found ≡ inl real
      → (base : FilePath) × (canonicalize folder ≡ inl base)
        × (canonicalize (lexical_resolve base (components file)) ≡ inl real)
        × IsBelow base real
  resolve_in-IsBelow file dir folder real (inr error) at h = absurd (not_refused _ real h)
  resolve_in-IsBelow file dir folder real (inl base) at h =
      let abs = lexical_resolve base (components file) in
      elim (Bool-cases (is_inside base abs)) [
        | inr out ↦ absurd (not_refused (escapes file base) real (rw out at h))
        | inl into ↦
            let (read, below) =
              real_in-IsBelow file base abs real (canonicalize abs) refl (canonical folder base at)
                (rw into at h) in
            (base, at, read, below)
      ]

  -- Every file that the sandbox lets through is the real path of the file that the entry names,
  -- and is the entry's real folder or below it by names alone, where the host's real paths are
  -- absolute and have no `.` and no `..`.
  pub resolve_sandboxed-IsBelow :
      (current_dir : Option FilePath) (file : Text) (dir real : FilePath)
      → resolve_sandboxed canonicalize current_dir file (some dir) ≡ inl real
      → (base : FilePath) × (canonicalize (absolute current_dir dir) ≡ inl base)
        × (canonicalize (lexical_resolve base (components file)) ≡ inl real)
        × IsBelow base real
  unfolding resolve_sandboxed
  resolve_sandboxed-IsBelow current_dir file dir real h =
      resolve_in-IsBelow file dir (absolute current_dir dir) real
        (canonicalize (absolute current_dir dir)) refl h
