-- ===== src/Server/Normal.antt =====
-- rs/src/server.rs `normalize` and rs/src/loaders.rs `lexical_resolve`, two ways to a path without `.` and `..`.
use lsp.Base.{◌≡◌, refl, ap, ◌∙◌, Bool, true, false, ◌&&◌, not, [], ◌∷◌, ◌++◌}
use lsp.Loaders.{
  Component, root_dir, cur_dir, parent_dir, normal, FilePath, is_absolute, pop, resolve_component,
  resolve_from, lexical_resolve,
}
use lsp.Server.Uris.{ends_at_root, climb, normalize_component, normalize_from, normalize}

never_true : false ≡ true → ⊥
never_true k = cc

negated_right : (a b : Bool) → b ≡ true → a && not b ≡ false
negated_right true true h = refl
negated_right true false h = absurd (never_true h)
negated_right false b h = refl

-- below a root there is always something to leave, or the root itself
climb-pop : (out : FilePath) → is_absolute out ≡ true → climb out ≡ pop out
unfolding climb
climb-pop out h = rw (negated_right (ends_at_root out) (is_absolute out) h) refl

pop-absolute : (out : FilePath) → is_absolute out ≡ true → is_absolute (pop out) ≡ true
unfolding is_absolute pop
pop-absolute [] h = h
pop-absolute (root_dir ∷ []) h = refl
pop-absolute (root_dir ∷ c ∷ out) h = refl
pop-absolute (cur_dir ∷ out) h = absurd (never_true h)
pop-absolute (parent_dir ∷ out) h = absurd (never_true h)
pop-absolute (normal part ∷ out) h = absurd (never_true h)

step-absolute :
    (out : FilePath) (c : Component)
    → is_absolute out ≡ true
    → is_absolute (resolve_component out c) ≡ true
unfolding resolve_component is_absolute
step-absolute out root_dir h = refl
step-absolute out cur_dir h = h
step-absolute out parent_dir h = pop-absolute out h
step-absolute out (normal part) h = append-absolute out h
  where
    append-absolute :
        (path : FilePath) → is_absolute path ≡ true → is_absolute (path ++ normal part ∷ []) ≡ true
    append-absolute [] k = absurd (never_true k)
    append-absolute (root_dir ∷ path) k = refl
    append-absolute (cur_dir ∷ path) k = absurd (never_true k)
    append-absolute (parent_dir ∷ path) k = absurd (never_true k)
    append-absolute (normal name ∷ path) k = absurd (never_true k)

step_same :
    (out : FilePath) (c : Component)
    → is_absolute out ≡ true
    → normalize_component out c ≡ resolve_component out c
unfolding normalize_component resolve_component
step_same out root_dir h = refl
step_same out cur_dir h = refl
step_same out parent_dir h = climb-pop out h
step_same out (normal part) h = refl

from_same :
    (out path : FilePath) → is_absolute out ≡ true → normalize_from out path ≡ resolve_from out path
unfolding normalize_from resolve_from
from_same out [] h = refl
from_same out (c ∷ path) h =
    ap (λ (reached : FilePath). normalize_from reached path) (step_same out c h)
    ∙ from_same (resolve_component out c) path (step-absolute out c h)

-- Of an absolute path, the server's `normalize` makes what the loader's `lexical_resolve` makes,
-- so a changed file is compared with the files that entries watch in one form.
pub normalize-lexical_resolve :
    (base path : FilePath) → is_absolute path ≡ true → normalize path ≡ lexical_resolve base path
unfolding normalize lexical_resolve is_absolute normalize_from resolve_from normalize_component
    resolve_component
normalize-lexical_resolve base [] h = absurd (never_true h)
normalize-lexical_resolve base (root_dir ∷ path) h = from_same (root_dir ∷ []) path refl
normalize-lexical_resolve base (cur_dir ∷ path) h = absurd (never_true h)
normalize-lexical_resolve base (parent_dir ∷ path) h = absurd (never_true h)
normalize-lexical_resolve base (normal part ∷ path) h = absurd (never_true h)
