-- ===== src/Tests.antt =====
-- The theorems at inputs that meet their hypotheses, and runs of the definitions.
pub mod Stores
pub mod Routing
pub mod Sandbox
pub mod Framing
pub mod Server
pub mod Firewall
use lsp.Base.{
  String, ◌-◌, ℕ, ◌≤◌, ◌<◌, ◌+◌, ◌≡◌, refl, Bool, true, ◌||◌, ◌⊎◌, inl, inr, Option, none, some,
  List, [], ◌∷◌, ◌++◌, arith, min, All, map, reverse,
}
use lsp.Base.Sort.{sort, by_key}
use lsp.Base.Text.{
  Text, codes, byte_len, is_char_boundary, slice, saturating_add, len_utf16, usize_max, u32_max,
}
use lsp.Types.{pos, Position, Range, Doc, TokenPoint, new_doc}
use lsp.Documents.{
  boundary, line_span, measure_in, position_at, offset_at, line_starts, starts_of, apply_change,
  apply_changes, fill_line_starts,
}
use lsp.Documents.Boundary.{boundary_greatest}
use lsp.Documents.Lines.{IsCoherent}
use lsp.Documents.Positions.{position_behind, position_at-append}
use lsp.Documents.RoundTrip.{offset_at-position_at}
use lsp.Documents.Edits.{offset_at_on_line, apply_change_splices, line_index-IsCoherent}
use lsp.Trace.{
  reconcile, reconcile_in, reconcile_placed, anchor, holds_at, claim, reaches_past, last_to,
}
use lsp.Trace.Claims.{inside, covered, IsGapped}
use lsp.Trace.Union.{claim-union}
use lsp.Trace.Reference.{shadowed, scan, Placed, reconcile_placed-scan}
use lsp.Trace.Result.{StrictlyAscending, reconcile_placed_lem}
use lsp.Trace.Anchor.{IsMoved, anchor_once}
use lsp.Columns.{new_columns, columns_of, walk_back, boundary_at_or_before}
use lsp.Columns.Exact.{columns_of-walk_back}
use lsp.Semantic.Legend.{
  from_name, type_name, from_index, index, string_type, Overrides, token_type, override_of, or_else,
  default_token_type, prefix_token_type, TokenType,
}
use lsp.Semantic.Segments.{segments, semantic_tokens, semantic_tokens_reconciled}
use lsp.Semantic.Encoding.{semantic_tokens_data}
use lsp.Semantic.Order.{IsOrdered, InText, segments_lem}
use lsp.Semantic.Decode.{FitsWire, decode_from, reading, decode-semantic_tokens_data}

-- "ab", a carriage return and a line feed, then a two-byte and a four-byte character
abbrev sample : Doc
sample =
    new_doc (codes "file:///t") (codes "t") (pos 1) (97 ∷ 98 ∷ 13 ∷ 10 ∷ 233 ∷ 119070 ∷ 120 ∷ [])

sample-IsCoherent : IsCoherent sample
sample-IsCoherent = λ starts h. cc

line_starts-sample : line_starts sample ≡ 0 ∷ 4 ∷ []
unfolding line_starts starts_of lsp.Documents.after_line_feeds lsp.Base.Text.bytes
    lsp.Base.Text.utf8
line_starts-sample = refl

boundary_greatest_example :
    (is_char_boundary sample.text (boundary sample 8) ≡ true)
    × (boundary sample 8 ≤ 8)
    × ((j : ℕ) → is_char_boundary sample.text j ≡ true → j ≤ 8 → j ≤ boundary sample 8)
boundary_greatest_example = boundary_greatest sample 8

sample_fits : byte_len sample.text ≤ u32_max
unfolding byte_len lsp.Base.Text.len_utf8
sample_fits = omega arith

boundary-sample : boundary sample 8 ≡ byte_len (97 ∷ 98 ∷ 13 ∷ 10 ∷ 233 ∷ [])
unfolding boundary lsp.Documents.down_to_boundary is_char_boundary byte_len lsp.Base.Text.len_utf8
boundary-sample = refl

position_at-append_example :
    position_at sample 8 ≡ position_behind sample.encoding (97 ∷ 98 ∷ 13 ∷ 10 ∷ 233 ∷ [])
position_at-append_example =
    position_at-append sample 8 (97 ∷ 98 ∷ 13 ∷ 10 ∷ 233 ∷ []) (119070 ∷ 120 ∷ []) sample-IsCoherent
      refl boundary-sample

offset_at-position_at_example :
    offset_at sample (position_at sample 3)
    ≡ min (boundary sample 3) (line_span sample (position_at sample 3).line).1
offset_at-position_at_example = offset_at-position_at sample sample-IsCoherent 3 sample_fits

abbrev past_end : Position
past_end = record { line = 0; character = 9 }

first_line :
    slice sample.text (line_span sample 0).0 (line_span sample 0).1 ≡ (97 ∷ []) ++ (98 ∷ [])
unfolding line_span slice lsp.Base.Text.take_bytes lsp.Base.Text.drop_bytes line_starts starts_of
    lsp.Documents.after_line_feeds lsp.Base.Text.bytes lsp.Base.Text.utf8 lsp.Documents.line_limit
    lsp.Base.Text.len_utf8
first_line = refl

offset_at_on_line_example :
    (is_char_boundary sample.text (offset_at sample past_end) ≡ true)
    × ((line_span sample 0).0 ≤ offset_at sample past_end)
    × (offset_at sample past_end ≤ (line_span sample 0).1)
    × ((9
          ≤ measure_in sample.encoding
              (slice sample.text (line_span sample 0).0 (offset_at sample past_end)))
        ⊎ (offset_at sample past_end ≡ (line_span sample 0).1))
    × ((offset_at sample past_end ≤ (line_span sample 0).0 + byte_len (97 ∷ []))
        ⊎ (measure_in sample.encoding (97 ∷ []) < 9))
offset_at_on_line_example =
    offset_at_on_line sample sample-IsCoherent past_end (97 ∷ []) (98 ∷ []) first_line

abbrev second_line : Range
second_line = record {
  start = record { line = 1; character = 0 };
  end = record { line = 1; character = 1 };
}

apply_change_splices_example :
    (a : Text) × (a' : Text) × (b' : Text) × (b : Text) × (sample.text ≡ a ++ a')
    × (offset_at sample second_line.start ≡ byte_len a)
    × (sample.text ≡ b' ++ b)
    × (offset_at sample second_line.end ≡ byte_len b')
    × ((apply_change sample (some second_line) (codes "z")).text ≡ a ++ (codes "z" ++ b))
    × ((apply_change sample (some second_line) (codes "z")).version ≡ pos 1)
apply_change_splices_example = apply_change_splices sample second_line (codes "z") sample-IsCoherent

line_index-IsCoherent_example :
    IsCoherent (apply_changes sample ((some second_line, codes "z\n") ∷ []) (pos 2))
    × IsCoherent (fill_line_starts sample)
    × (line_starts
          (apply_changes (fill_line_starts sample) ((some second_line, codes "z\n") ∷ []) (pos 2))
        ≡ starts_of (apply_changes sample ((some second_line, codes "z\n") ∷ []) (pos 2)).text)
line_index-IsCoherent_example =
    line_index-IsCoherent sample ((some second_line, codes "z\n") ∷ []) (pos 2) sample-IsCoherent

claim-union_example :
    IsGapped (claim ((0, 1) ∷ (3, 4) ∷ []) 1 3)
    × ((x : ℕ)
        → covered x (claim ((0, 1) ∷ (3, 4) ∷ []) 1 3)
          ≡ (inside x 1 3 || covered x ((0, 1) ∷ (3, 4) ∷ [])))
claim-union_example = claim-union ((0, 1) ∷ (3, 4) ∷ []) 1 3 (omega arith) (omega arith)

abbrev point : String → ℕ → String → TokenPoint
point name si src = record {
  name = codes name;
  si = si;
  ri = 1;
  ci = si + 1;
  len = byte_len (codes src);
  src = codes src;
}

-- a recut of "ab" that is taken back
abbrev recut : List TokenPoint
recut =
    point "#ST" 0 "ab"
    ∷ point "#TX" 0 "a"
    ∷ point "#NR" 1 "b"
    ∷ point "#ST" 0 "ab"
    ∷ point "#CA" 2 ","
    ∷ []

abbrev in_place : TokenPoint → Option TokenPoint
in_place t = none

reconcile-recut : reconcile recut ≡ point "#ST" 0 "ab" ∷ point "#CA" 2 "," ∷ []
unfolding reconcile reconcile_placed lsp.Trace.reconcile_loop claim lsp.Trace.absorb_after
    lsp.Trace.remove lsp.Trace.insert lsp.Trace.first_from lsp.Trace.last_to saturating_add
    lsp.Trace.span sort byte_len lsp.Base.Text.len_utf8
reconcile-recut = refl

reconcile_placed-scan_example :
    reconcile_placed recut in_place
    ≡ sort (by_key (λ (t : TokenPoint). t.si)) (scan in_place (reverse recut) [])
unfolding lsp.Trace.unwrap_or
reconcile_placed-scan_example = reconcile_placed-scan recut in_place (omega arith)

reconcile_placed_lem_example :
    StrictlyAscending (reconcile_placed recut in_place)
    × All
        (λ (event : TokenPoint).
          shadowed (Placed in_place event).si (reconcile_placed recut in_place) ≡ true)
        recut
unfolding lsp.Trace.unwrap_or
reconcile_placed_lem_example = reconcile_placed_lem recut in_place (omega arith)

-- a string whose token was reported behind it
abbrev late : TokenPoint
late = point "#ST" 3 "abc"

abbrev put_back : TokenPoint
put_back = record late { si = 0; ci = 1 }

anchor-late : anchor late (codes "abc\n") ≡ some put_back
unfolding anchor holds_at lsp.Trace.checked_add lsp.Trace.checked_sub is_char_boundary
    lsp.Base.Text.slice lsp.Base.Text.take_bytes lsp.Base.Text.drop_bytes lsp.Base.Text.text_eq
    lsp.Trace.count_feeds lsp.Trace.moved_column lsp.Trace.has_break byte_len lsp.Base.Text.len_utf8
anchor-late = refl

anchor_once_example :
    IsMoved late (codes "abc\n") put_back × (anchor put_back (codes "abc\n") ≡ none)
anchor_once_example = anchor_once late put_back (codes "abc\n") anchor-late

columns_of-walk_back_example :
    columns_of len_utf16 sample.text new_columns ((10, 3) ∷ (4, 1) ∷ [])
    ≡ map
        (λ (site : ℕ × ℕ).
          walk_back len_utf16 sample.text (boundary_at_or_before sample.text site.0) (site.1 - 1))
        ((10, 3) ∷ (4, 1) ∷ [])
columns_of-walk_back_example = columns_of-walk_back len_utf16 sample.text ((10, 3) ∷ (4, 1) ∷ [])

abbrev json : Text
json = codes "[1,\n\"a\"]"

abbrev json_trace : List TokenPoint
json_trace =
    point "#OS" 0 "["
    ∷ point "#NR" 1 "1"
    ∷ point "#CA" 2 ","
    ∷ record { name = codes "#ST"; si = 4; ri = 2; ci = 1; len = 3; src = codes "\"a\"" }
    ∷ []

json_fits : byte_len json ≤ usize_max
unfolding byte_len lsp.Base.Text.len_utf8
json_fits = omega arith

segments_lem_example :
    IsOrdered 0 0 (semantic_tokens_reconciled json_trace none json)
    × All (InText (byte_len json)) (segments json_trace none json)
segments_lem_example = segments_lem json_trace none json json_fits

abbrev plain : Option Overrides
plain = some ((codes "#TX", codes "regexp") ∷ [])

-- one token, whose data fits the wire
abbrev number : List TokenPoint
number = point "#NR" 0 "7" ∷ []

number_fits : byte_len (codes "7") ≤ usize_max
unfolding byte_len lsp.Base.Text.len_utf8
number_fits = omega arith

number-FitsWire : All FitsWire (semantic_tokens number none (codes "7"))
unfolding lsp.Trace.span lsp.Trace.last_to lsp.Trace.first_from lsp.Trace.remove lsp.Trace.insert
    lsp.Trace.absorb_before lsp.Trace.absorb_after lsp.Trace.claim lsp.Trace.reaches_past
    lsp.Trace.unwrap_or lsp.Trace.reconcile_loop lsp.Trace.reconcile_placed lsp.Trace.get_range
    lsp.Trace.holds_at lsp.Trace.checked_add lsp.Trace.checked_sub lsp.Trace.is_break
    lsp.Trace.has_break lsp.Trace.rfind_break lsp.Trace.count_feeds lsp.Trace.count_start
    lsp.Trace.moved_column lsp.Trace.anchor lsp.Trace.reconcile_in lsp.Columns.boundary_at_or_before
    lsp.Columns.count_over lsp.Columns.advance_to lsp.Columns.step_chars lsp.Columns.advance_chars
    lsp.Columns.walk_back lsp.Columns.column_at lsp.Columns.column lsp.Columns.columns_of
    lsp.Semantic.Legend.type_name lsp.Semantic.Legend.index lsp.Semantic.Legend.from_name
    lsp.Semantic.Legend.from_index lsp.Semantic.Legend.find_by
    lsp.Semantic.Legend.default_token_type lsp.Semantic.Legend.prefix_token_type
    lsp.Semantic.Legend.or_else lsp.Semantic.Legend.conventional_name
    lsp.Semantic.Legend.override_of lsp.Semantic.Legend.token_type_name
    lsp.Semantic.Legend.token_type lsp.Semantic.Segments.emit lsp.Semantic.Segments.split_feeds
    lsp.Semantic.Segments.has_feed lsp.Semantic.Segments.emit_parts lsp.Semantic.Segments.emit_token
    lsp.Semantic.Segments.segments_loop lsp.Semantic.Segments.segments
    lsp.Semantic.Segments.semantic_tokens_reconciled lsp.Semantic.Segments.semantic_tokens
    lsp.Base.Text.saturating_add lsp.Base.Text.len_utf8 lsp.Base.Text.len_utf16 lsp.Base.Text.utf8
    lsp.Base.Text.bytes lsp.Base.Text.byte_len lsp.Base.Text.is_char_boundary
    lsp.Base.Text.take_bytes lsp.Base.Text.drop_bytes lsp.Base.Text.slice lsp.Base.Text.text_eq
    lsp.Base.Text.starts_with sort lsp.Documents.utf16_len lsp.Documents.down_to_boundary
number-FitsWire = ((omega arith, omega arith, omega arith), tt)

decode-semantic_tokens_data_example :
    decode_from 0 0 (semantic_tokens_data number none (codes "7"))
    ≡ map reading (semantic_tokens number none (codes "7"))
decode-semantic_tokens_data_example =
    decode-semantic_tokens_data number none (codes "7") number_fits number-FitsWire
