-- ===== src/Outline/Symbols.antt =====
-- rs/src/outline.rs: `outline`, with every token measured in one pass over the text.
use lsp.Base.{ℕ, zero, suc, ◌+◌, ◌-◌, ◌*◌, min, max, Option, List, [], ◌∷◌, length, get_or}
use lsp.Base.Sort.{sort, by_key}
use lsp.Base.Text.{Char, Text, byte_len, u32_max}
use lsp.Types.{Position, PositionEncoding, utf16_units, utf8_bytes, Doc, TokenPoint, RuleEvent}
use lsp.Documents.{wire, utf16_len, units_in, line_starts}
use lsp.Columns.{Columns, new_columns, column}
use lsp.Outline.Events.{Rules, outline_rules, symbol_kind, Bracket, new_matching, match_events}
use lsp.Outline.Nesting.{symbol, no_symbols, Symbols, Spanned, nest}

unfoldable pub encoded_len : Text → PositionEncoding → ℕ
encoded_len text utf16_units = utf16_len text
encoded_len text utf8_bytes = byte_len text

-- Columns::position, from the column that was measured
unfoldable pub site_position : Doc → TokenPoint → ℕ → Position
site_position d token col = record {
  line = wire (min (token.ri - 1) (length (line_starts d) - 1));
  character = wire col;
}

-- Columns::units
abbrev pub doc_units : Doc → Char → ℕ
doc_units d c = units_in d.encoding c

-- Columns::column, whose two cursors are those of semantic.rs over the document's units
abbrev pub doc_column : Doc → Columns → ℕ → ℕ → Columns × (ℕ × ℕ)
doc_column d columns si ci = column (doc_units d) d.text columns si ci

-- positions[slot] = position
unfoldable pub set_at : ℕ → Position → List Position → List Position
set_at slot position [] = []
set_at zero position (p ∷ positions) = position ∷ positions
set_at (suc slot) position (p ∷ positions) = p ∷ set_at slot position positions

-- the two sites of each symbol, for symbols numbered from `n` on
unfoldable pub sites_of : ℕ → List Bracket → List (ℕ × TokenPoint)
sites_of n [] = []
sites_of n (b ∷ brackets) = (2 * n, b.o0) ∷ (2 * n + 1, b.end) ∷ sites_of (suc n) brackets

-- the loop over the sorted sites
unfoldable pub measure_sites : Doc → Columns → List (ℕ × TokenPoint) → List Position → List Position
measure_sites d columns [] positions = positions
measure_sites d columns ((slot, token) ∷ sites) positions =
    let (columns', found) = doc_column d columns token.si token.ci in
    measure_sites d columns' sites (set_at slot (site_position d token found.0) positions)

abbrev pub origin : Position
origin = record { line = 0; character = 0 }

-- vec![Position::default(); n]
unfoldable pub defaults : ℕ → List Position
defaults zero = []
defaults (suc n) = origin ∷ defaults n

unfoldable pub site_positions : Doc → List Bracket → List Position
site_positions d brackets =
    measure_sites d new_columns
      (sort (by_key (λ (site : ℕ × TokenPoint). site.1.si)) (sites_of 0 brackets))
      (defaults (length (sites_of 0 brackets)))

abbrev pub saturating_u32 : ℕ → ℕ → ℕ
saturating_u32 a b = min (a + b) u32_max

unfoldable pub spanned : Doc → Bracket → Position → Position → Spanned
unfolding encoded_len
spanned d b start end_start =
    let end_of : Position = record {
      line = end_start.line;
      character =
          saturating_u32 end_start.character (wire (max (encoded_len b.end.src d.encoding) 1));
    } in
    record {
      symbol_of =
          symbol b.label (symbol_kind b.label) (record { start = start; end = end_of })
            (record { start = start; end = start }) no_symbols;
      start = b.o0.si;
      end = b.end.si;
    }

unfoldable pub spanned_from : Doc → List Position → ℕ → List Bracket → List Spanned
spanned_from d positions n [] = []
spanned_from d positions n (b ∷ brackets) =
    spanned d b (get_or positions (2 * n) origin) (get_or positions (2 * n + 1) origin)
    ∷ spanned_from d positions (suc n) brackets

unfoldable pub outline : List RuleEvent → Option Rules → Doc → Symbols
unfolding spanned_from site_positions
outline events overrides d =
    let brackets = (match_events (outline_rules overrides) events new_matching).closed_symbols in
    nest (spanned_from d (site_positions d brackets) 0 brackets)
