-- ===== src/Registry/Folders.antt =====
-- registry.rs: what `contains` and `ext_of` decide, without the order of their tests.
use lsp.Base.{
  ◌≡◌, refl, ap, ◌∙◌, Bool, true, false, ◌||◌, Bool-cases, inl, inr, ◌⊎◌, ◌↔◌, Option, none, some,
  [], ◌∷◌, ◌++◌, ◌==◌, if◌then◌else◌, arith, All,
}
use lsp.Base.Text.{Char, Text, text_eq, text_eq_iff, starts_with}
use lsp.Registry.Paths.{
  strip_prefix, after_last, has_any, ext_of, folder_text, starts_inside, contains_path,
}

-- the folder itself, or something below it
abbrev pub IsInside : Text → Text → Type 0
IsInside folder path = (path ≡ folder) ⊎ ((rest : Text) × (path ≡ folder ++ (b'/' ∷ rest)))

strip_prefix_sound : (p t rest : Text) → strip_prefix p t ≡ some rest → t ≡ p ++ rest
unfolding strip_prefix
strip_prefix_sound [] t rest h = cc
strip_prefix_sound (c ∷ p) [] rest h = cc
strip_prefix_sound (c ∷ p) (d ∷ t) rest h = elim (Bool-cases (c == d)) [
  | inl e ↦
      let same : c ≡ d = ground arith in
      let tail : t ≡ p ++ rest = strip_prefix_sound p t rest (rw e at h) in cc
  | inr e ↦ let no_match : none ≡ some rest = rw e at h in cc
]

pub strip_prefix-append : (p t : Text) → strip_prefix p (p ++ t) ≡ some t
unfolding strip_prefix
strip_prefix-append [] t = refl
strip_prefix-append (c ∷ p) t =
    let same : (c == c) ≡ true = ground arith in rw same (strip_prefix-append p t)

slash_start : (rest : Text) → starts_with (b'/' ∷ []) rest ≡ true → (r : Text) × (rest ≡ b'/' ∷ r)
unfolding starts_with
slash_start [] h = cc
slash_start (c ∷ r) h = (r, (let same : c ≡ b'/' = ground (arith, h) in cc))

starts_inside-IsInside :
    (folder path : Text) (found : Option Text)
    → strip_prefix folder path ≡ found
    → starts_inside found ≡ true
    → IsInside folder path
starts_inside-IsInside folder path none e h = cc
starts_inside-IsInside folder path (some rest) e h =
    let (r, at) = slash_start rest h in
    inr (r, strip_prefix_sound folder path rest e ∙ ap (λ (t : Text). folder ++ t) at)

or_cases : (a b : Bool) → (a || b) ≡ true → (a ≡ true) ⊎ (b ≡ true)
or_cases true b h = inl refl
or_cases false b h = inr h

contains_path_complete :
    (dir path : Text) → IsInside (folder_text dir) path → contains_path dir path ≡ true
unfolding contains_path starts_with
contains_path_complete dir path (inl e) =
    let same = (text_eq_iff path (folder_text dir)).1 e in rw same refl
contains_path_complete dir path (inr (rest, e)) =
    let stripped : strip_prefix (folder_text dir) path ≡ some (b'/' ∷ rest) =
      ap (strip_prefix (folder_text dir)) e ∙ strip_prefix-append (folder_text dir) (b'/' ∷ rest) in
    rw stripped (ground arith)

contains_path_sound :
    (dir path : Text) → contains_path dir path ≡ true → IsInside (folder_text dir) path
unfolding contains_path
contains_path_sound dir path h = elim (or_cases (text_eq path (folder_text dir)) _ h) [
  | inl e ↦ inl ((text_eq_iff path (folder_text dir)).0 e)
  | inr e ↦ starts_inside-IsInside (folder_text dir) path _ refl e
]

-- A folder contains a path just when the path is the folder's text, less the slashes at its end
-- and with forward slashes in the Windows forms, or that text followed by a slash and more.
pub contains_path-IsInside :
    (dir path : Text) → (contains_path dir path ≡ true) ↔ IsInside (folder_text dir) path
contains_path-IsInside dir path = (contains_path_sound dir path, contains_path_complete dir path)

no_after_last : (c : Char) (t : Text) → All (λ x. (x == c) ≡ false) t → after_last c t ≡ none
unfolding after_last
no_after_last c [] h = refl
no_after_last c (x ∷ t) h = rw (no_after_last c t h.1, h.0) refl

after_last-append :
    (c : Char) (stem rest : Text)
    → All (λ x. (x == c) ≡ false) rest
    → after_last c (stem ++ (c ∷ rest)) ≡ some rest
unfolding after_last
after_last-append c [] rest h =
    let same : (c == c) ≡ true = ground arith in rw (no_after_last c rest h, same) refl
after_last-append c (x ∷ stem) rest h = rw (after_last-append c stem rest h) refl

-- The extension of a text that ends in a dot and at least one character, none of them a dot, is
-- the lowercased rest with its dot, or none where the rest has a slash or a backslash.
ext_of-append :
    (to_lowercase : Text → Text) (stem : Text) (c : Char) (ext : Text)
    → All (λ x. (x == b'.') ≡ false) (c ∷ ext)
    → ext_of to_lowercase (stem ++ (b'.' ∷ c ∷ ext)) ≡ (
        if has_any (b'/' ∷ b'\\' ∷ []) (c ∷ ext)
        then none
        else some (b'.' ∷ to_lowercase (c ∷ ext)))
unfolding ext_of
ext_of-append to_lowercase stem c ext h = rw (after_last-append b'.' stem (c ∷ ext) h, ext_of) refl
