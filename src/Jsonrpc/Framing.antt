-- ===== src/Jsonrpc/Framing.antt =====
-- rs/src/jsonrpc.rs: the headers that `read_message` reads and `write_message` writes. A stream is the list of the bytes it
-- still has and whether it fails where they run out. `String::from_utf8_lossy` and `{:?}` of a text are parameters.
use lsp.Base.{
  ℕ, ◌⊎◌, inl, inr, Bool, true, false, not, ◌&&◌, ◌||◌, Option, none, some, List, [], ◌∷◌, ◌++◌,
  map, ◌==◌, if◌then◌else◌, length,
}
use lsp.Base.Text.{Char, Text, codes, bytes, text_eq}
use lsp.Base.Trim.{trim, to_ascii_lowercase}
use lsp.Base.Decimal.{decimal, parse_u64}

abbrev pub last_line : List ℕ → List (List ℕ)
last_line [] = []
last_line (b ∷ line) = (b ∷ line) ∷ []

-- the lines that `read_until` gives, each with its line feed
unfoldable pub lines_from : List ℕ → List ℕ → List (List ℕ)
lines_from line [] = last_line line
lines_from line (b ∷ bs) =
    let next = lines_from [] bs in
    let more = lines_from (line ++ b ∷ []) bs in if b == 10 then (line ++ b ∷ []) ∷ next else more

unfoldable pub joined : List (List ℕ) → List ℕ
joined [] = []
joined (line ∷ lines) = line ++ joined lines

unfoldable pub is_terminated : List ℕ → Bool
is_terminated [] = false
is_terminated (b ∷ []) = b == 10
is_terminated (b ∷ c ∷ line) = is_terminated (c ∷ line)

abbrev pub is_line_end : Char → Bool
is_line_end c = c == 13 || c == 10

-- `trim_end_matches(['\r', '\n'])`
unfoldable pub trim_line : Text → Text
trim_line [] = []
trim_line (c ∷ t) = elim (trim_line t) [
  | [] ↦ if is_line_end c then [] else c ∷ []
  | ◌∷◌ d rest ↦ c ∷ d ∷ rest
]

abbrev pub with_first : Char → Option (Text × Text) → Option (Text × Text)
with_first c none = none
with_first c (some (before, after)) = some (c ∷ before, after)

unfoldable pub split_once : Char → Text → Option (Text × Text)
split_once c [] = none
split_once c (x ∷ t) =
    let rest = with_first x (split_once c t) in if x == c then some ([], t) else rest

-- the length read so far, or why it is unusable
abbrev pub Declared : Type 0
Declared = Option (ℕ ⊎ Text)

abbrev pub is_blank : Text → Bool
is_blank [] = true
is_blank (c ∷ t) = false

unfoldable pub is_content_length : Text → Bool
unfolding trim to_ascii_lowercase
is_content_length name = text_eq (map to_ascii_lowercase (trim name)) (codes "content-length")

-- what the headers of a message come to
pub data Headers : Type 0 where
  no_more broken : Headers
  block : Declared → List (List ℕ) → Headers

module _ (quoted : Text → Text) where
  abbrev pub length_or : Option ℕ → Text → ℕ ⊎ Text
  length_or (some n) value = inl n
  length_or none value = inr (codes "bad Content-Length: " ++ quoted value)

  unfoldable pub header_length : Option (Text × Text) → Declared → Declared
  unfolding is_content_length parse_u64
  header_length none declared = declared
  header_length (some (name, value)) declared =
      if is_content_length name
      then some (length_or (parse_u64 (trim value)) (trim value))
      else declared

module _ (from_utf8_lossy : List ℕ → Text) (quoted : Text → Text) where
  unfoldable pub read_headers : Bool → Bool → Declared → List (List ℕ) → Headers
  unfolding trim_line split_once header_length is_terminated
  read_headers fails started declared [] = if fails || started then broken else no_more
  read_headers fails started declared (line ∷ lines) =
      let text = trim_line (from_utf8_lossy line) in
      let found =
        if is_blank text then declared else header_length quoted (split_once b':' text) declared in
      let rest = read_headers fails (not (is_blank text)) found lines in
      if fails && not (is_terminated line)
      then broken
      else if is_blank text && started
      then block declared lines
      else rest

-- `Content-Length`, a blank line, and the body
unfoldable pub frame : List ℕ → List ℕ
unfolding decimal
frame body =
    bytes (codes "Content-Length: " ++ (decimal (length body) ++ 13 ∷ 10 ∷ 13 ∷ 10 ∷ [])) ++ body
