-- ===== src/Registry/FolderText.antt =====
-- registry.rs: the text of a folder that `contains` compares, described without `windowsy` and the trimming.
use lsp.Base.{
  ℕ, zero, suc, ◌≤◌, ◌≡◌, refl, sym, ap, ◌∙◌, true, false, Bool-cases, inl, inr, ◌⊎◌, ◌↔◌, [], ◌∷◌,
  ◌++◌, ◌==◌, map, if◌then◌else◌, arith,
}
use lsp.Base.Text.{Char, Text, bytes, utf8, starts_with}
use lsp.Registry.Paths.{windowsy, forward_slash, trim_end, folder_text, contains_path}
use lsp.Registry.Folders.{IsInside, contains_path-IsInside}

abbrev IsLetter : Char → Type 0
IsLetter c = ((b'A' ≤ c) × (c ≤ b'Z')) ⊎ ((b'a' ≤ c) × (c ≤ b'z'))

-- a drive letter with its colon, or two backslashes
abbrev pub IsWindows : Text → Type 0
IsWindows (c ∷ d ∷ t) = (IsLetter c × (d ≡ b':')) ⊎ ((c ≡ b'\\') × (d ≡ b'\\'))
IsWindows _ = ⊥

-- the same text with a slash for each backslash
abbrev pub IsForward : Text → Text → Type 0
IsForward [] [] = Unit
IsForward (c ∷ t) (d ∷ u) =
    (((c ≡ b'\\') × (d ≡ b'/')) ⊎ ((c ≡ b'\\' → ⊥) × (d ≡ c))) × IsForward t u
IsForward _ _ = ⊥

abbrev pub IsTrimmed : Text → Type 0
IsTrimmed [] = Unit
IsTrimmed (c ∷ []) = c ≡ b'/' → ⊥
IsTrimmed (c ∷ d ∷ t) = IsTrimmed (d ∷ t)

abbrev pub slashes : ℕ → Text
slashes zero = []
slashes (suc n) = b'/' ∷ slashes n

-- a folder that is written `dir`: forward slashes in the Windows forms, and none at the end
pub record IsFolder (dir folder : Text) : Type 0 where
  pub written : Text
  pub more : ℕ
  pub spelt : (IsWindows dir × IsForward dir written) ⊎ ((IsWindows dir → ⊥) × (written ≡ dir))
  pub splits : written ≡ folder ++ slashes more
  pub trimmed : IsTrimmed folder

map-IsForward : (t : Text) → IsForward t (map forward_slash t)
map-IsForward [] = tt
map-IsForward (c ∷ t) = elim (Bool-cases (c == b'\\')) [
  | inl e ↦ rw e (inl (ground arith, refl), map-IsForward t)
  | inr e ↦ rw e (inr ((λ h. ground arith), refl), map-IsForward t)
]

trim_end_lem :
    (t : Text) → (n : ℕ) × (t ≡ trim_end b'/' t ++ slashes n) × IsTrimmed (trim_end b'/' t)
unfolding trim_end
trim_end_lem [] = (0, refl, tt)
trim_end_lem (c ∷ t) = behind (trim_end b'/' t) (trim_end_lem t)
  where
    behind :
        (front : Text)
        → (n : ℕ) × (t ≡ front ++ slashes n) × IsTrimmed front
        → (n : ℕ) × (c ∷ t
            ≡ elim front [ [] ↦ if c == b'/' then [] else c ∷ [] | ◌∷◌ y rest ↦ c ∷ y ∷ rest ]
              ++ slashes n)
          × IsTrimmed
              (elim front [ [] ↦ if c == b'/' then [] else c ∷ [] | ◌∷◌ y rest ↦ c ∷ y ∷ rest ])
    behind [] (n, split, clear) = elim (Bool-cases (c == b'/')) [
      | inl e ↦
          let same : c ≡ b'/' = ground arith in
          rw e (suc n, (let eq : c ∷ t ≡ b'/' ∷ slashes n = cc in eq), tt)
      | inr e ↦ rw e (n, ap (◌∷◌ c) split, λ h. ground arith)
    ]
    behind (y ∷ rest) (n, split, clear) = (n, ap (◌∷◌ c) split, clear)

windowsy-IsWindows : (dir : Text) → windowsy dir ≡ true → IsWindows dir
unfolding windowsy bytes utf8 starts_with
windowsy-IsWindows [] h = ground arith
windowsy-IsWindows (c ∷ []) h = ground arith
windowsy-IsWindows (c ∷ d ∷ t) h = ground arith

IsWindows-windowsy : (dir : Text) → IsWindows dir → windowsy dir ≡ true
unfolding windowsy bytes utf8 starts_with
IsWindows-windowsy [] h = absurd h
IsWindows-windowsy (c ∷ []) h = absurd h
IsWindows-windowsy (c ∷ d ∷ t) h = ground arith

folder_text-IsFolder : (dir : Text) → IsFolder dir (folder_text dir)
unfolding folder_text
folder_text-IsFolder dir = elim (Bool-cases (windowsy dir)) [
  | inl e ↦
      let (n, split, trimmed) = trim_end_lem (map forward_slash dir) in
      rw e (record {
        written = map forward_slash dir;
        more = n;
        spelt = inl (windowsy-IsWindows dir e, map-IsForward dir);
        splits = split;
        trimmed = trimmed;
      })
  | inr e ↦
      let (n, split, trimmed) = trim_end_lem dir in
      rw e (record {
        written = dir;
        more = n;
        spelt = inr (λ w. apart (sym (IsWindows-windowsy dir w) ∙ e), refl);
        splits = split;
        trimmed = trimmed;
      })
]
  where
    apart : true ≡ false → ⊥
    apart h = cc

-- A folder contains a path just when the path is the folder's text or that text followed by a
-- slash and more, where the folder's text is the folder as written, with a slash for each
-- backslash where it starts with a drive letter and a colon or with two backslashes and only
-- there, less all the slashes at its end.
pub contains_path-IsFolder :
    (dir path : Text)
    → (folder : Text) × IsFolder dir folder
      × ((contains_path dir path ≡ true) ↔ IsInside folder path)
contains_path-IsFolder dir path =
    (folder_text dir, folder_text-IsFolder dir, contains_path-IsInside dir path)
