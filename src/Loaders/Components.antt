-- ===== src/Loaders/Components.antt =====
-- rs/src/loaders.rs: the components of paths, and when one path is inside another.
use lsp.Base.{◌≡◌, refl, sym, ap, ap₂, Bool, true, false, ◌&&◌, [], ◌∷◌, ◌++◌, arith, All}
use lsp.Base.Text.{text_eq_iff}
use lsp.Loaders.{
  Component, root_dir, cur_dir, parent_dir, normal, FilePath, same_component, is_inside,
}

-- a component that names something
abbrev pub IsNormal : Component → Type 0
IsNormal (normal part) = Unit
IsNormal _ = ⊥

-- an absolute path without `.` and `..`
abbrev pub IsReal : FilePath → Type 0
IsReal (root_dir ∷ path) = All IsNormal path
IsReal _ = ⊥

pub clash : false ≡ true → ⊥
clash h = ground (arith, h)

same_component_sound : (c d : Component) → same_component c d ≡ true → c ≡ d
unfolding same_component
same_component_sound root_dir root_dir h = refl
same_component_sound root_dir cur_dir h = absurd (clash h)
same_component_sound root_dir parent_dir h = absurd (clash h)
same_component_sound root_dir (normal b) h = absurd (clash h)
same_component_sound cur_dir root_dir h = absurd (clash h)
same_component_sound cur_dir cur_dir h = refl
same_component_sound cur_dir parent_dir h = absurd (clash h)
same_component_sound cur_dir (normal b) h = absurd (clash h)
same_component_sound parent_dir root_dir h = absurd (clash h)
same_component_sound parent_dir cur_dir h = absurd (clash h)
same_component_sound parent_dir parent_dir h = refl
same_component_sound parent_dir (normal b) h = absurd (clash h)
same_component_sound (normal a) root_dir h = absurd (clash h)
same_component_sound (normal a) cur_dir h = absurd (clash h)
same_component_sound (normal a) parent_dir h = absurd (clash h)
same_component_sound (normal a) (normal b) h = ap normal ((text_eq_iff a b).0 h)

same_component_refl : (c : Component) → same_component c c ≡ true
unfolding same_component
same_component_refl root_dir = refl
same_component_refl cur_dir = refl
same_component_refl parent_dir = refl
same_component_refl (normal a) = (text_eq_iff a a).1 refl

both : (a b : Bool) → (a && b) ≡ true → (a ≡ true) × (b ≡ true)
both true b h = (refl, h)
both false b h = absurd (clash h)

pub is_inside_sound :
    (base path : FilePath)
    → is_inside base path ≡ true
    → (inner : FilePath) × (path ≡ base ++ inner)
unfolding is_inside
is_inside_sound [] path h = (path, refl)
is_inside_sound (c ∷ base) [] h = absurd (clash h)
is_inside_sound (c ∷ base) (d ∷ path) h =
    let (same, rest) = both (same_component c d) (is_inside base path) h in
    let (inner, e) = is_inside_sound base path rest in
    (inner, ap₂ ◌∷◌ (sym (same_component_sound c d same)) e)

pub is_inside_complete : (base inner : FilePath) → is_inside base (base ++ inner) ≡ true
unfolding is_inside
is_inside_complete [] inner = refl
is_inside_complete (c ∷ base) inner = rw (same_component_refl c) (is_inside_complete base inner)

pub All-append-right : (a b : FilePath) → All IsNormal (a ++ b) → All IsNormal b
All-append-right [] b h = h
All-append-right (c ∷ a) b h = All-append-right a b h.1
