-- ===== src/Columns.antt =====
-- rs/src/semantic.rs and rs/src/outline.rs: `Columns`, the two cursors that measure engine columns in one pass over
-- the text. The two files' copies differ in the unit that they count, which is the parameter `units` here.
pub mod Prefixes
pub mod Exact
use lsp.Base.{
  ℕ, ◌+◌, ◌-◌, ◌<◌, min, Bool, List, [], ◌∷◌, map, reverse, ltb, if◌then◌else◌, length, take, sum,
}
use lsp.Base.Text.{Char, Text, len_utf8, byte_len, take_bytes, drop_bytes, slice}
use lsp.Documents.{down_to_boundary}

-- a byte offset in the text, with the characters and the units before it
pub record Cursor : Type 0 where
  pub byte : ℕ
  pub chars : ℕ
  pub units : ℕ

pub record Columns : Type 0 where
  pub at : Cursor
  pub from : Cursor

abbrev pub start_cursor : Cursor
start_cursor = record { byte = 0; chars = 0; units = 0 }

-- Columns::new
abbrev pub new_columns : Columns
new_columns = record { at = start_cursor; from = start_cursor }

-- `si` clamped into the text and moved back to a character boundary
unfoldable pub boundary_at_or_before : Text → ℕ → ℕ
boundary_at_or_before text si = down_to_boundary text (min si (byte_len text))

module _ (units : Char → ℕ) where
  -- the loop of `advance_to`
  unfoldable pub count_over : Text → Cursor → Cursor
  count_over [] c = c
  count_over (x ∷ t) c = count_over t (record c { chars = c.chars + 1; units = c.units + units x })

  unfoldable pub advance_to : Text → ℕ → Cursor → Cursor
  unfolding count_over
  advance_to text byte c = record (count_over (slice text c.byte byte) c) { byte = byte }

  -- the loop of `advance_chars`
  unfoldable pub step_chars : ℕ → Text → Cursor → Cursor
  step_chars chars [] c = c
  step_chars chars (x ∷ rest) c =
      let further =
        step_chars chars rest
          (record { byte = c.byte + len_utf8 x; chars = c.chars + 1; units = c.units + units x }) in
      if ltb c.chars chars then further else c

  unfoldable pub advance_chars : Text → ℕ → Cursor → Cursor
  unfolding step_chars
  advance_chars text chars c = step_chars chars (drop_bytes c.byte text) c

  -- the units and the characters of up to `want` characters before the boundary `si`
  unfoldable pub walk_back : Text → ℕ → ℕ → ℕ × ℕ
  walk_back text si want =
      let back = take want (reverse (take_bytes si text)) in (sum (map units back), length back)

  -- the column at a boundary, in units and in characters, and the cursors moved on
  unfoldable pub column_at : Text → Columns → ℕ → ℕ → Columns × (ℕ × ℕ)
  column_at text cs si want =
      let at = advance_to text si cs.at in
      let start = at.chars - want in
      let from = advance_chars text start cs.from in
      if ltb si cs.at.byte
      then (cs, walk_back text si want)
      else if ltb start cs.from.chars
      then (record cs { at = at }, walk_back text si want)
      else (record { at = at; from = from }, (at.units - from.units, at.chars - from.chars))

  unfoldable pub column : Text → Columns → ℕ → ℕ → Columns × (ℕ × ℕ)
  column text cs si ci = column_at text cs (boundary_at_or_before text si) (ci - 1)

  -- the columns of tokens in turn, each by its offset and engine column
  unfoldable pub columns_of : Text → Columns → List (ℕ × ℕ) → List (ℕ × ℕ)
  columns_of text cs [] = []
  columns_of text cs ((si, ci) ∷ sites) =
      let (cs', found) = column text cs si ci in found ∷ columns_of text cs' sites
