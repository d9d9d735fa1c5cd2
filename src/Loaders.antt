-- ===== src/Loaders.antt =====
-- rs/src/loaders.rs: the sandbox of grammar files, `lexical_resolve`, `resolve_sandboxed` and `watched_file`, with the
-- paths of a Unix host. A path is the list of its components. `fs::canonicalize` and the working directory are
-- parameters. The firewall over JSON documents and what it accepts are in the children.
pub mod Components
pub mod Sandbox
pub mod Inside
pub mod Watch
pub mod Json
pub mod Scans
pub mod AltScans
pub mod Firewall
pub mod Clean
pub mod Plain
pub mod Alternates
pub mod Rules
pub mod Accepted
use lsp.Base.{
  ℕ, ◌⊎◌, inl, inr, Bool, true, false, not, ◌&&◌, Option, none, some, List, [], ◌∷◌, ◌++◌, ◌==◌,
  if◌then◌else◌, filter,
}
use lsp.Base.Text.{Char, Text, codes, text_eq}

pub data Component : Type 0 where
  root_dir cur_dir parent_dir : Component
  normal : Text → Component

abbrev pub FilePath : Type 0
FilePath = List Component

abbrev pub to_first : Char → List Text → List Text
to_first c [] = (c ∷ []) ∷ []
to_first c (piece ∷ pieces) = (c ∷ piece) ∷ pieces

-- str::split
unfoldable pub split : Char → Text → List Text
split c [] = [] ∷ []
split c (x ∷ t) = let rest = split c t in if x == c then [] ∷ rest else to_first x rest

-- a `.` counts where the path begins with it
abbrev pub component_of : Bool → Text → FilePath
component_of first [] = []
component_of first (c ∷ t) =
    if text_eq (c ∷ t) (codes ".")
    then (if first then cur_dir ∷ [] else [])
    else if text_eq (c ∷ t) (codes "..")
    then parent_dir ∷ []
    else normal (c ∷ t) ∷ []

unfoldable pub components_from : Bool → List Text → FilePath
components_from first [] = []
components_from first (piece ∷ pieces) = component_of first piece ++ components_from false pieces

-- Path::components
unfoldable pub components : Text → FilePath
unfolding split components_from
components [] = []
components (c ∷ t) =
    if c == b'/'
    then root_dir ∷ components_from false (split b'/' t)
    else components_from true (split b'/' (c ∷ t))

-- Path::is_absolute
unfoldable pub is_absolute : FilePath → Bool
is_absolute (root_dir ∷ path) = true
is_absolute _ = false

abbrev pub is_cur_dir : Component → Bool
is_cur_dir cur_dir = true
is_cur_dir _ = false

-- Path::join of a path that is not absolute
unfoldable pub join : FilePath → FilePath → FilePath
join [] path = path
join (c ∷ base) path = (c ∷ base) ++ filter (λ x. not (is_cur_dir x)) path

abbrev pub is_root : Component → Bool
is_root root_dir = true
is_root _ = false

-- PathBuf::pop
unfoldable pub pop : FilePath → FilePath
pop [] = []
pop (c ∷ d ∷ path) = c ∷ pop (d ∷ path)
pop (c ∷ []) = if is_root c then c ∷ [] else []

-- one round of the loop of `lexical_resolve`
unfoldable pub resolve_component : FilePath → Component → FilePath
unfolding pop
resolve_component out root_dir = root_dir ∷ []
resolve_component out cur_dir = out
resolve_component out parent_dir = pop out
resolve_component out (normal part) = out ++ normal part ∷ []

unfoldable pub resolve_from : FilePath → FilePath → FilePath
unfolding resolve_component
resolve_from out [] = out
resolve_from out (c ∷ path) = resolve_from (resolve_component out c) path

unfoldable pub lexical_resolve : FilePath → FilePath → FilePath
unfolding resolve_from is_absolute join
lexical_resolve base path = resolve_from [] (if is_absolute path then path else join base path)

-- the working directory, where it can be read
abbrev pub cwd_or : Option FilePath → FilePath
cwd_or none = []
cwd_or (some cwd) = cwd

unfoldable pub absolute : Option FilePath → FilePath → FilePath
unfolding lexical_resolve
absolute current_dir dir = lexical_resolve (cwd_or current_dir) dir

unfoldable pub same_component : Component → Component → Bool
unfolding text_eq
same_component root_dir root_dir = true
same_component cur_dir cur_dir = true
same_component parent_dir parent_dir = true
same_component (normal a) (normal b) = text_eq a b
same_component _ _ = false

-- Path::starts_with
unfoldable pub is_inside : FilePath → FilePath → Bool
unfolding same_component
is_inside [] path = true
is_inside (c ∷ base) [] = false
is_inside (c ∷ base) (d ∷ path) = same_component c d && is_inside base path

-- `==` of paths
unfoldable pub same_path : FilePath → FilePath → Bool
unfolding same_component
same_path [] [] = true
same_path (c ∷ a) (d ∷ b) = same_component c d && same_path a b
same_path _ _ = false

-- the refusals, by what their messages tell
pub data SandboxError : Type 0 where
  needs_base : Text → SandboxError
  folder_unreadable : FilePath → Text → SandboxError
  escapes : Text → FilePath → SandboxError
  file_unreadable : Text → Text → SandboxError
  escapes_by_symlink : Text → FilePath → SandboxError

abbrev pub real_in : Text → FilePath → FilePath ⊎ Text → FilePath ⊎ SandboxError
real_in file base (inr error) = inr (file_unreadable file error)
real_in file base (inl real) =
    if is_inside base real then inl real else inr (escapes_by_symlink file real)

module _ (canonicalize : FilePath → FilePath ⊎ Text) where
  abbrev pub resolve_in : FilePath → Text → FilePath ⊎ Text → FilePath ⊎ SandboxError
  resolve_in dir file (inr error) = inr (folder_unreadable dir error)
  resolve_in dir file (inl base) =
      let abs = lexical_resolve base (components file) in
      if is_inside base abs then real_in file base (canonicalize abs) else inr (escapes file base)

  unfoldable pub resolve_sandboxed :
      Option FilePath → Text → Option FilePath → FilePath ⊎ SandboxError
  unfolding absolute lexical_resolve components is_inside
  resolve_sandboxed current_dir file none = inr (needs_base file)
  resolve_sandboxed current_dir file (some dir) =
      resolve_in dir file (canonicalize (absolute current_dir dir))
