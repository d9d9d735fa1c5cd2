-- ===== src/Semantic/Segments.antt =====
-- rs/src/semantic.rs: `segments`, from reconciled tokens to line-local pieces in every unit.
use lsp.Base.{
  ℕ, ◌+◌, ◌-◌, min, max, Bool, false, ◌&&◌, ◌||◌, Option, none, some, List, [], ◌∷◌, ◌++◌, map, ltb,
  ◌==◌, if◌then◌else◌, length,
}
use lsp.Base.Text.{Text, byte_len, len_utf16, saturating_add}
use lsp.Types.{TokenPoint}
use lsp.Documents.{utf16_len}
use lsp.Documents.Span.{strip_cr}
use lsp.Trace.{span, reconcile_in}
use lsp.Columns.{Columns, new_columns, column}
use lsp.Semantic.Legend.{TokenType, Overrides, token_type}

pub record SemanticToken : Type 0 where
  pub row : ℕ
  pub col : ℕ
  pub len : ℕ
  pub col_chars : ℕ
  pub len_chars : ℕ
  pub kind : TokenType

pub record Segment : Type 0 where
  pub row : ℕ
  pub col : ℕ
  pub len : ℕ
  pub col_chars : ℕ
  pub len_chars : ℕ
  pub start : ℕ
  pub end : ℕ
  pub kind : TokenType

-- Segment::token
abbrev pub token_of : Segment → SemanticToken
token_of s = record {
  row = s.row;
  col = s.col;
  len = s.len;
  col_chars = s.col_chars;
  len_chars = s.len_chars;
  kind = s.kind;
}

pub record Emitter : Type 0 where
  pub out : List Segment
  pub prev_row : ℕ
  pub prev_col : ℕ

abbrev pub new_emitter : Emitter
new_emitter = record { out = []; prev_row = 0; prev_col = 0 }

-- Emitter::emit
unfoldable pub emit : Segment → Emitter → Emitter
emit s e =
    if ltb s.len 1
    then e
    else if ltb s.row e.prev_row || (s.row == e.prev_row && ltb s.col e.prev_col)
    then e
    else record { out = e.out ++ s ∷ []; prev_row = s.row; prev_col = s.col }

-- `src.split('\n')`: the first part, and those behind the line feeds
unfoldable pub split_feeds : Text → Text × List Text
split_feeds [] = ([], [])
split_feeds (c ∷ t) =
    let (part, parts) = split_feeds t in
    if c == b'\n' then ([], part ∷ parts) else (c ∷ part, parts)

unfoldable pub has_feed : Text → Bool
has_feed [] = false
has_feed (c ∷ t) = c == b'\n' || has_feed t

-- one part of a token that spans lines: `i` is its number, `first` whether it is the first
abbrev pub part_segment : TokenType → ℕ → ℕ → ℕ → ℕ → ℕ → ℕ → Text → Segment
part_segment kind text_len row i col col_chars offset part =
    let seg = strip_cr part in
    record {
      row = saturating_add row i;
      col = if i == 0 then col else 0;
      len = utf16_len seg;
      col_chars = if i == 0 then col_chars else 0;
      len_chars = length seg;
      start = offset;
      end = min (saturating_add offset (byte_len seg)) text_len;
      kind = kind;
    }

-- the loop over a token's lines
unfoldable pub emit_parts : TokenType → ℕ → ℕ → ℕ → ℕ → ℕ → ℕ → List Text → Emitter → Emitter
emit_parts kind text_len row i col col_chars offset [] e = e
emit_parts kind text_len row i col col_chars offset (part ∷ parts) e =
    emit_parts kind text_len row (i + 1) col col_chars
      (min (saturating_add offset (byte_len part + 1)) text_len) parts
      (emit (part_segment kind text_len row i col col_chars offset part) e)

-- a token on one line
abbrev pub whole_segment : TokenType → ℕ → TokenPoint → ℕ → ℕ → Segment
whole_segment kind text_len token col col_chars =
    let end_of = min (saturating_add token.si (span token)) text_len in
    record {
      row = token.ri - 1;
      col = col;
      len = max (utf16_len token.src) 1;
      col_chars = col_chars;
      len_chars = max (length token.src) 1;
      start = min token.si end_of;
      end = end_of;
      kind = kind;
    }

-- a token with a type, its column measured
unfoldable pub emit_token : TokenType → ℕ → TokenPoint → ℕ → ℕ → Emitter → Emitter
unfolding split_feeds emit_parts
emit_token kind text_len token col col_chars e =
    if has_feed token.src
    then (let (part, parts) = split_feeds token.src in
        emit_parts kind text_len (token.ri - 1) 0 col col_chars (min token.si text_len)
          (part ∷ parts) e)
    else emit (whole_segment kind text_len token col col_chars) e

unfoldable pub segments_loop :
    List TokenPoint → Option Overrides → Text → Columns → Emitter → Emitter
segments_loop [] overrides text columns e = e
segments_loop (token ∷ tokens) overrides text columns e = elim (token_type token.name overrides) [
  | none ↦ segments_loop tokens overrides text columns e
  | some kind ↦
      let (columns', found) = column len_utf16 text columns token.si token.ci in
      segments_loop tokens overrides text columns'
        (emit_token kind (byte_len text) token found.0 found.1 e)
]

unfoldable pub segments : List TokenPoint → Option Overrides → Text → List Segment
segments reconciled overrides text =
    (segments_loop reconciled overrides text new_columns new_emitter).out

unfoldable pub semantic_tokens_reconciled :
    List TokenPoint → Option Overrides → Text → List SemanticToken
semantic_tokens_reconciled reconciled overrides text =
    map token_of (segments reconciled overrides text)

unfoldable pub semantic_tokens : List TokenPoint → Option Overrides → Text → List SemanticToken
semantic_tokens events overrides text =
    semantic_tokens_reconciled (reconcile_in events text) overrides text
