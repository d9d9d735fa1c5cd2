-- ===== src/Registry/Paths.antt =====
-- rs/src/registry.rs: `ext_of`, `fs_path_of`, `decode_uri_component`, `contains` and `windowsy`. A path is its text;
-- `str::to_lowercase`, which reads the Unicode tables, is a parameter.
use lsp.Base.{
  ℕ, ◌+◌, ◌-◌, ◌*◌, Bool, true, false, ◌&&◌, ◌||◌, Option, none, some, List, [], ◌∷◌, map, leb,
  ◌==◌, if◌then◌else◌, length, get_or,
}
use lsp.Base.Text.{Char, Text, codes, bytes, text_eq, starts_with}
use lsp.Base.Utf8.{prepend, from_utf8}

-- str::strip_prefix
unfoldable pub strip_prefix : Text → Text → Option Text
strip_prefix [] t = some t
strip_prefix (c ∷ p) [] = none
strip_prefix (c ∷ p) (d ∷ t) = if c == d then strip_prefix p t else none

-- what stands behind the last `c`
unfoldable pub after_last : Char → Text → Option Text
after_last c [] = none
after_last c (x ∷ t) = elim (after_last c t) [
  | some rest ↦ some rest
  | none ↦ if x == c then some t else none
]

-- the text from the first `c` on
unfoldable pub from_first : Char → Text → Option Text
from_first c [] = none
from_first c (x ∷ t) = if x == c then some (x ∷ t) else from_first c t

unfoldable pub is_one_of : List Char → Char → Bool
is_one_of [] x = false
is_one_of (c ∷ cs) x = c == x || is_one_of cs x

-- `text.contains(chars)`
unfoldable pub has_any : List Char → Text → Bool
unfolding is_one_of
has_any chars [] = false
has_any chars (x ∷ t) = is_one_of chars x || has_any chars t

-- `ext.is_empty() || ext.contains(['/', '\\'])`
abbrev pub no_extension : Text → Bool
no_extension [] = true
no_extension (c ∷ ext) = has_any (b'/' ∷ b'\\' ∷ []) (c ∷ ext)

module _ (to_lowercase : Text → Text) where
  unfoldable pub ext_of : Text → Option Text
  unfolding after_last has_any
  ext_of uri = elim (after_last b'.' uri) [
    | none ↦ none
    | some ext ↦ if no_extension ext then none else some (b'.' ∷ to_lowercase ext)
  ]

abbrev pub is_ascii_digit : ℕ → Bool
is_ascii_digit b = leb b'0' b && leb b b'9'

abbrev pub is_ascii_alphabetic : ℕ → Bool
is_ascii_alphabetic b = (leb b'a' b && leb b b'z') || (leb b'A' b && leb b b'Z')

-- u8::is_ascii_hexdigit
unfoldable pub is_hexdigit : ℕ → Bool
is_hexdigit b = is_ascii_digit b || ((leb b'a' b && leb b b'f') || (leb b'A' b && leb b b'F'))

-- the value of a hexadecimal digit
unfoldable pub hex_value : ℕ → ℕ
hex_value b = if leb b b'9' then b - b'0' else if leb b b'F' then b - b'A' + 10 else b - b'a' + 10

-- the loop of `decode_uri_component`
unfoldable pub decode_escapes : List ℕ → Option (List ℕ)
decode_escapes [] = some []
decode_escapes (b ∷ []) = if b == b'%' then none else some (b ∷ [])
decode_escapes (b ∷ h ∷ []) =
    let literal = prepend b (decode_escapes (h ∷ [])) in if b == b'%' then none else literal
decode_escapes (b ∷ h ∷ l ∷ rest) =
    let decoded = prepend (hex_value h * 16 + hex_value l) (decode_escapes rest) in
    let literal = prepend b (decode_escapes (h ∷ l ∷ rest)) in
    if b == b'%' then (if is_hexdigit h && is_hexdigit l then decoded else none) else literal

abbrev pub from_utf8_of : Option (List ℕ) → Option Text
from_utf8_of none = none
from_utf8_of (some out) = from_utf8 out

unfoldable pub decode_uri_component : Text → Option Text
unfolding decode_escapes is_hexdigit hex_value
decode_uri_component src = from_utf8_of (decode_escapes (bytes src))

-- `path.remove(0)`
abbrev pub remove_first : Text → Text
remove_first [] = []
remove_first (c ∷ t) = t

-- the Windows drive form: /c:/dir -> c:/dir
unfoldable pub drop_drive : Text → Text
drop_drive path =
    if leb 3 (length (bytes path))
      && (is_ascii_alphabetic (get_or (bytes path) 1 0) && get_or (bytes path) 2 0 == b':')
    then remove_first path
    else path

-- line feed, carriage return, line separator and paragraph separator
abbrev pub line_terminators : List Char
line_terminators = b'\n' ∷ b'\r' ∷ 0x2028 ∷ 0x2029 ∷ []

abbrev pub path_of_decoded : Option Text → Option Text
path_of_decoded none = none
path_of_decoded (some path) = some (drop_drive path)

abbrev pub path_behind : Option Text → Option Text
path_behind none = none
path_behind (some path) =
    if has_any line_terminators path then none else path_of_decoded (decode_uri_component path)

abbrev pub path_of_rest : Option Text → Option Text
path_of_rest none = none
path_of_rest (some rest) = path_behind (from_first b'/' rest)

unfoldable pub fs_path_of : Text → Option Text
unfolding strip_prefix from_first has_any decode_uri_component drop_drive
fs_path_of uri = path_of_rest (strip_prefix (codes "file://") uri)

-- a drive letter or a UNC root
unfoldable pub windowsy : Text → Bool
windowsy path =
    (leb 2 (length (bytes path))
      && (is_ascii_alphabetic (get_or (bytes path) 0 0) && get_or (bytes path) 1 0 == b':'))
    || starts_with (b'\\' ∷ b'\\' ∷ []) path

-- `replace('\\', "/")`
abbrev pub forward_slash : Char → Char
forward_slash c = if c == b'\\' then b'/' else c

-- str::trim_end_matches
unfoldable pub trim_end : Char → Text → Text
trim_end c [] = []
trim_end c (x ∷ t) = elim (trim_end c t) [
  | [] ↦ if x == c then [] else x ∷ []
  | ◌∷◌ y rest ↦ x ∷ y ∷ rest
]

-- a folder as `contains` compares it
unfoldable pub folder_text : Text → Text
unfolding windowsy trim_end
folder_text dir = trim_end b'/' (if windowsy dir then map forward_slash dir else dir)

abbrev pub starts_inside : Option Text → Bool
starts_inside none = false
starts_inside (some rest) = starts_with (b'/' ∷ []) rest

unfoldable pub contains_path : Text → Text → Bool
unfolding folder_text strip_prefix
contains_path dir fs_path =
    text_eq fs_path (folder_text dir) || starts_inside (strip_prefix (folder_text dir) fs_path)
