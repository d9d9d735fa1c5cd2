-- ===== src/Documents.antt =====
-- rs/src/documents.rs: the line index of a document and every conversion between byte offsets, engine
-- positions and wire positions; edits; the store of open documents. Slices are taken at character
-- boundaries, as Documents/Boundary shows, so none of them panics.
pub mod Boundary
pub mod Lines
pub mod Span
pub mod Positions
pub mod RoundTrip
pub mod Edits
pub mod Store
use lsp.Base.{
  ℕ, zero, suc, ◌+◌, ◌-◌, ◌<◌, min, max, Bool, true, false, not, ◌&&◌, Option, none, some, List, [],
  ◌∷◌, ◌++◌, map, reverse, ltb, leb, ◌==◌, if◌then◌else◌, length, get_elem?, get_or, take, sum,
}
use lsp.Base.Text.{
  Char, Text, u32_max, len_utf8, len_utf16, bytes, byte_len, is_char_boundary, take_bytes,
  drop_bytes, slice,
}
use lsp.Types.{
  ℤ, Position, Range, PositionEncoding, utf16_units, utf8_bytes, Doc, TokenPoint, new_doc,
  with_encoding,
}

-- u32::try_from(n).unwrap_or(u32::MAX)
unfoldable pub wire : ℕ → ℕ
wire n = if leb n u32_max then n else u32_max

-- the index behind each line feed of the bytes, which begin at index `i`
unfoldable pub after_line_feeds : ℕ → List ℕ → List ℕ
after_line_feeds i [] = []
after_line_feeds i (b ∷ bs) =
    let rest = after_line_feeds (i + 1) bs in if b == b'\n' then (i + 1) ∷ rest else rest

unfoldable pub starts_of : Text → List ℕ
starts_of text = 0 ∷ after_line_feeds 0 (bytes text)

-- `get_or_init`: what the cell holds, else the starts computed from the text
unfoldable pub line_starts : Doc → List ℕ
line_starts d = elim d.line_starts_cell [ none ↦ starts_of d.text | some starts ↦ starts ]

-- the document after a call of `line_starts`
unfoldable pub fill_line_starts : Doc → Doc
fill_line_starts d = record d { line_starts_cell = some (line_starts d) }

unfoldable pub update : Doc → Text → ℤ → Doc
update d text version = record d { text = text; version = version; line_starts_cell = none }

unfoldable pub line_count : Doc → ℕ
line_count d = length (line_starts d)

unfoldable pub units_in : PositionEncoding → Char → ℕ
units_in utf16_units c = len_utf16 c
units_in utf8_bytes c = len_utf8 c

unfoldable pub utf16_len : Text → ℕ
utf16_len text = sum (map len_utf16 text)

unfoldable pub measure_in : PositionEncoding → Text → ℕ
measure_in utf16_units s = utf16_len s
measure_in utf8_bytes s = byte_len s

-- slice::partition_point of `start <= offset`, on a list that the test partitions
unfoldable pub partition_point : ℕ → List ℕ → ℕ
partition_point offset [] = 0
partition_point offset (start ∷ starts) =
    if leb start offset then suc (partition_point offset starts) else 0

unfoldable pub line_of : Doc → ℕ → ℕ
line_of d offset = max (partition_point offset (line_starts d)) 1 - 1

-- where a line ends, given the start of the next line, if there is one, and the text's length
unfoldable pub line_limit : Option ℕ → ℕ → ℕ
line_limit none len = len
line_limit (some next) len = next - 1

-- the clamped `line` is in range of `starts`
unfoldable pub line_span : Doc → ℕ → ℕ × ℕ
line_span d wanted =
    let starts = line_starts d in
    let line = min wanted (length starts - 1) in
    let start = get_or starts line 0 in
    let raw_end = line_limit (get_elem? starts (line + 1)) (byte_len d.text) in
    (
      start,
      (if ltb start raw_end && get_or (bytes d.text) (raw_end - 1) 0 == b'\r'
          then raw_end - 1
          else raw_end),
    )

-- `while !is_char_boundary(offset) { offset -= 1 }`; offset 0 is a boundary
unfoldable pub down_to_boundary : Text → ℕ → ℕ
down_to_boundary text zero = 0
down_to_boundary text (suc n) =
    if is_char_boundary text (suc n) then suc n else down_to_boundary text n

unfoldable pub boundary : Doc → ℕ → ℕ
boundary d offset = down_to_boundary d.text (min offset (byte_len d.text))

-- str::char_indices from byte `i` on, the indices alone
unfoldable pub char_indices : ℕ → Text → List ℕ
char_indices i [] = []
char_indices i (c ∷ t) = i ∷ char_indices (i + len_utf8 c) t

unfoldable pub byte_of_scalar : Doc → ℕ → ℕ
byte_of_scalar d pos = get_or (char_indices 0 d.text) pos (byte_len d.text)

unfoldable pub column_before : Doc → ℕ → ℕ → ℕ
column_before d at chars =
    sum (map (units_in d.encoding) (take chars (reverse (take_bytes (boundary d at) d.text))))

unfoldable pub position_at : Doc → ℕ → Position
position_at d wanted =
    let offset = boundary d wanted in
    let line = line_of d offset in
    let start = get_or (line_starts d) line 0 in
    record {
      line = wire line;
      character = wire (measure_in d.encoding (slice d.text start offset));
    }

-- the loop of `offset_at` over a line's characters: `at` is `start + i`
unfoldable pub walk_units : PositionEncoding → ℕ → ℕ → ℕ → Text → ℕ
walk_units enc want units at [] = at
walk_units enc want units at (c ∷ t) =
    let rest = walk_units enc want (units + units_in enc c) (at + len_utf8 c) t in
    if leb want units then at else rest

unfoldable pub offset_at : Doc → Position → ℕ
offset_at d position =
    let (start, end_of_line) = line_span d position.line in
    walk_units d.encoding position.character 0 start (slice d.text start end_of_line)

unfoldable pub position_from_engine : Doc → ℕ → ℕ → Position
position_from_engine d row col =
    let line = min (row - 1) (line_count d - 1) in
    let (start, end_of_line) = line_span d line in
    record {
      line = wire line;
      character =
          wire (sum (map (units_in d.encoding) (take (col - 1) (slice d.text start end_of_line))));
    }

unfoldable pub position_from_site : Doc → ℕ → ℕ → ℕ → Position
position_from_site d si row col = record {
  line = wire (min (row - 1) (line_count d - 1));
  character = wire (column_before d si (col - 1));
}

unfoldable pub position_of_token : Doc → TokenPoint → Position
position_of_token d token = position_from_site d token.si token.ri token.ci

-- the loop of `range_from`: the offset behind the first `len` characters
unfoldable pub add_len_utf8 : ℕ → Text → ℕ
add_len_utf8 at [] = at
add_len_utf8 at (c ∷ t) = add_len_utf8 (at + len_utf8 c) t

unfoldable pub range_from : Doc → ℕ → ℕ → ℕ → ℕ → Range
range_from d row col pos len =
    let from = byte_of_scalar d pos in
    record {
      start = position_from_site d from row col;
      end = position_at d (add_len_utf8 from (take len (drop_bytes from d.text)));
    }

unfoldable pub apply_change : Doc → Option Range → Text → Doc
apply_change d none text = update d text d.version
apply_change d (some range) text =
    update d
      (take_bytes (offset_at d range.start) d.text
        ++ (text ++ drop_bytes (offset_at d range.end) d.text))
      d.version

unfoldable pub apply_each : Doc → List (Option Range × Text) → Doc
apply_each d [] = d
apply_each d ((range, text) ∷ changes) = apply_each (apply_change d range text) changes

unfoldable pub apply_changes : Doc → List (Option Range × Text) → ℤ → Doc
apply_changes d changes version = record (apply_each d changes) { version = version }
