-- ===== src/Server/Uris.antt =====
-- rs/src/server.rs: `folder_path_of`, `file_url_to_path`, `percent_decode` and `normalize`, on a POSIX host.
use lsp.Base.{
  ℕ, ◌+◌, ◌*◌, Bool, true, false, ◌&&◌, ◌||◌, not, Option, none, some, List, [], ◌∷◌, ◌++◌, map,
  ◌==◌, if◌then◌else◌,
}
use lsp.Base.Text.{Text, codes, bytes, text_eq, starts_with}
use lsp.Base.Utf8.{prepend, from_utf8}
use lsp.Base.Trim.{to_ascii_lowercase}
use lsp.Registry.Paths.{strip_prefix, from_first, hex_value, is_hexdigit}
use lsp.Loaders.{
  Component, root_dir, cur_dir, parent_dir, normal, FilePath, components, is_absolute, pop,
}

-- what stands before the first `?` or `#`
unfoldable pub before_query : Text → Text
before_query [] = []
before_query (c ∷ t) = if c == b'?' || c == b'#' then [] else c ∷ before_query t

unfoldable pub before_slash : Text → Text
before_slash [] = []
before_slash (c ∷ t) = if c == b'/' then [] else c ∷ before_slash t

-- `u8::from_str_radix(hex, 16)` of two characters: the first may be a sign `+`
unfoldable pub radix_16 : ℕ → ℕ → Option ℕ
unfolding is_hexdigit hex_value
radix_16 h l =
    if is_hexdigit l
    then (if is_hexdigit h
        then some (hex_value h * 16 + hex_value l)
        else if h == b'+'
        then some (hex_value l)
        else none)
    else none

abbrev pub escaped : Option ℕ → Option (List ℕ) → Option (List ℕ)
escaped none rest = none
escaped (some b) rest = prepend b rest

-- the loop of `percent_decode`; an escape that is no ASCII has no number
unfoldable pub percent_bytes : List ℕ → Option (List ℕ)
unfolding radix_16
percent_bytes [] = some []
percent_bytes (b ∷ []) = if b == b'%' then none else some (b ∷ [])
percent_bytes (b ∷ h ∷ []) =
    let literal = prepend b (percent_bytes (h ∷ [])) in if b == b'%' then none else literal
percent_bytes (b ∷ h ∷ l ∷ rest) =
    let decoded = escaped (radix_16 h l) (percent_bytes rest) in
    let literal = prepend b (percent_bytes (h ∷ l ∷ rest)) in if b == b'%' then decoded else literal

abbrev pub utf8_of : Option (List ℕ) → Option Text
utf8_of none = none
utf8_of (some out) = from_utf8 out

unfoldable pub percent_decode : Text → Option Text
unfolding percent_bytes from_utf8
percent_decode src = utf8_of (percent_bytes (bytes src))

abbrev pub ends_at_root : FilePath → Bool
ends_at_root [] = true
ends_at_root (root_dir ∷ []) = true
ends_at_root _ = false

-- `if !out.pop() && !out.has_root() { out.push("..") }`
unfoldable pub climb : FilePath → FilePath
unfolding pop is_absolute
climb out = if ends_at_root out && not (is_absolute out) then out ++ parent_dir ∷ [] else pop out

unfoldable pub normalize_component : FilePath → Component → FilePath
unfolding climb
normalize_component out cur_dir = out
normalize_component out parent_dir = climb out
normalize_component out root_dir = root_dir ∷ []
normalize_component out (normal part) = out ++ normal part ∷ []

unfoldable pub normalize_from : FilePath → FilePath → FilePath
unfolding normalize_component
normalize_from out [] = out
normalize_from out (c ∷ path) = normalize_from (normalize_component out c) path

unfoldable pub normalize : FilePath → FilePath
unfolding normalize_from
normalize path = normalize_from [] path

abbrev pub path_or_root : Option Text → Text
path_or_root none = b'/' ∷ []
path_or_root (some path) = path

-- the host and the path
abbrev pub authority : Option Text → Text → Text × Text
authority none rest = ([], rest)
authority (some after) rest = (before_slash after, path_or_root (from_first b'/' after))

abbrev pub is_local : Text → Bool
is_local host = text_eq host [] || text_eq (map to_ascii_lowercase host) (codes "localhost")

-- `text.contains(part)`
unfoldable pub has_part : Text → Text → Bool
has_part part [] = starts_with part []
has_part part (c ∷ t) = starts_with part (c ∷ t) || has_part part t

abbrev pub path_at : Text × Text → Option FilePath
path_at (host, path) =
    if has_part (codes "%2f") (map to_ascii_lowercase path)
    then none
    else elim (percent_decode path) [
      | none ↦ none
      | some decoded ↦ if is_local host then some (normalize (components decoded)) else none
    ]

unfoldable pub file_url_to_path : Text → Option FilePath
unfolding before_query strip_prefix before_slash from_first has_part percent_decode normalize
file_url_to_path rest =
    let url = before_query rest in path_at (authority (strip_prefix (codes "//") url) url)

abbrev pub file_path_of : Option Text → Text → Option FilePath
file_path_of none given = some (components given)
file_path_of (some rest) given = file_url_to_path rest

unfoldable pub folder_path_of : Text → Option FilePath
unfolding file_url_to_path components
folder_path_of [] = none
folder_path_of (c ∷ t) = file_path_of (strip_prefix (codes "file:") (c ∷ t)) (c ∷ t)
