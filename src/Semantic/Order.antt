-- ===== src/Semantic/Order.antt =====
-- semantic.rs: the segments come in document order, none is empty, and their byte ranges lie in the text.
use lsp.Base.{
  ℕ, ◌+◌, ◌-◌, ◌≤◌, ◌<◌, ◌≡◌, refl, min, ◌&&◌, ◌||◌, Bool-cases, Option-cases, inl, inr, ◌⊎◌,
  Option, List, [], ◌∷◌, ◌++◌, map, ltb, ◌==◌, arith, All, All-append,
}
use lsp.Base.Text.{Text, byte_len, len_utf16, saturating_add, usize_max}
use lsp.Types.{TokenPoint}
use lsp.Documents.Span.{strip_cr}
use lsp.Columns.{Columns, new_columns, column}
use lsp.Semantic.Legend.{TokenType, Overrides, token_type}
use lsp.Semantic.Segments.{
  SemanticToken, Segment, token_of, Emitter, new_emitter, emit, split_feeds, has_feed, part_segment,
  emit_parts, whole_segment, emit_token, segments_loop, segments, semantic_tokens_reconciled,
}

-- a token that is not empty, at or behind row `r` and column `c`
abbrev pub Follows : ℕ → ℕ → SemanticToken → Type 0
Follows r c t = (1 ≤ t.len) × ((r < t.row) ⊎ ((r ≡ t.row) × (c ≤ t.col)))

-- each token follows the one before it, the first follows `r` and `c`
abbrev pub IsOrdered : ℕ → ℕ → List SemanticToken → Type 0
IsOrdered r c [] = Unit
IsOrdered r c (t ∷ ts) = Follows r c t × IsOrdered t.row t.col ts

-- the same of segments, the last of which is at row `r'` and column `c'`
abbrev OrderedTo : ℕ → ℕ → List Segment → ℕ → ℕ → Type 0
OrderedTo r c [] r' c' = (r ≡ r') × (c ≡ c')
OrderedTo r c (s ∷ ss) r' c' = Follows r c (token_of s) × OrderedTo s.row s.col ss r' c'

abbrev pub InText : ℕ → Segment → Type 0
InText n s = (s.start ≤ s.end) × (s.end ≤ n)

OrderedTo-concat :
    (r c : ℕ) (ss : List Segment) (r' c' : ℕ) (s : Segment)
    → OrderedTo r c ss r' c'
    → Follows r' c' (token_of s)
    → OrderedTo r c (ss ++ s ∷ []) s.row s.col
OrderedTo-concat r c [] r' c' s o f = (ground (arith, o.0, o.1, f.0, f.1), (refl, refl))
OrderedTo-concat r c (t ∷ ss) r' c' s o f = (o.0, OrderedTo-concat t.row t.col ss r' c' s o.1 f)

OrderedTo-IsOrdered :
    (r c : ℕ) (ss : List Segment) (r' c' : ℕ)
    → OrderedTo r c ss r' c'
    → IsOrdered r c (map token_of ss)
OrderedTo-IsOrdered r c [] r' c' o = tt
OrderedTo-IsOrdered r c (s ∷ ss) r' c' o = (o.0, OrderedTo-IsOrdered s.row s.col ss r' c' o.1)

-- what holds of the emitter between calls
record Sound (n : ℕ) (e : Emitter) : Type 0 where
  ordered : OrderedTo 0 0 e.out e.prev_row e.prev_col
  in_text : All (InText n) e.out

emit-Sound : (n : ℕ) (s : Segment) (e : Emitter) → InText n s → Sound n e → Sound n (emit s e)
unfolding emit
emit-Sound n s e i h = elim (Bool-cases (ltb s.len 1)) [
  | inl p ↦ rw p h
  | inr p ↦
      rw p
        (elim (Bool-cases (ltb s.row e.prev_row || (s.row == e.prev_row && ltb s.col e.prev_col))) [
          | inl q ↦ rw q h
          | inr q ↦ rw q (record {
            ordered =
                OrderedTo-concat 0 0 e.out e.prev_row e.prev_col s h.ordered
                  (ground arith, ground arith);
            in_text = All-append (InText n) e.out (s ∷ []) h.in_text (i, tt);
          })
        ])
]

behind : (offset k n : ℕ) → offset ≤ n → n ≤ usize_max → offset ≤ min (saturating_add offset k) n
unfolding saturating_add
behind offset k n h fits = omega arith

emit_parts-Sound :
    (kind : TokenType) (n row i col col_chars offset : ℕ) (parts : List Text) (e : Emitter)
    → offset ≤ n
    → n ≤ usize_max
    → Sound n e
    → Sound n (emit_parts kind n row i col col_chars offset parts e)
unfolding emit_parts
emit_parts-Sound kind n row i col col_chars offset [] e h fits s = s
emit_parts-Sound kind n row i col col_chars offset (part ∷ parts) e h fits s =
    emit_parts-Sound kind n row (i + 1) col col_chars
      (min (saturating_add offset (byte_len part + 1)) n) parts
      (emit (part_segment kind n row i col col_chars offset part) e) (omega arith) fits
      (emit-Sound n (part_segment kind n row i col col_chars offset part) e
        (behind offset (byte_len (strip_cr part)) n h fits, omega arith) s)

emit_token-Sound :
    (kind : TokenType) (n : ℕ) (token : TokenPoint) (col col_chars : ℕ) (e : Emitter)
    → n ≤ usize_max
    → Sound n e
    → Sound n (emit_token kind n token col col_chars e)
unfolding emit_token
emit_token-Sound kind n token col col_chars e fits s = elim (Bool-cases (has_feed token.src)) [
  | inl h ↦ rw h (
      emit_parts-Sound kind n (token.ri - 1) 0 col col_chars (min token.si n)
        ((split_feeds token.src).0 ∷ (split_feeds token.src).1) e (omega arith) fits s)
  | inr h ↦
      rw h (emit-Sound n (whole_segment kind n token col col_chars) e (omega arith, omega arith) s)
]

segments_loop-Sound :
    (tokens : List TokenPoint) (overrides : Option Overrides) (text : Text) (columns : Columns)
    (e : Emitter)
    → byte_len text ≤ usize_max
    → Sound (byte_len text) e
    → Sound (byte_len text) (segments_loop tokens overrides text columns e)
unfolding segments_loop
segments_loop-Sound [] overrides text columns e fits s = s
segments_loop-Sound (token ∷ tokens) overrides text columns e fits s =
    elim (Option-cases (token_type token.name overrides)) [
      | inl h ↦ rw (h, segments_loop) (segments_loop-Sound tokens overrides text columns e fits s)
      | inr (kind, h) ↦
          let (columns', found) = column len_utf16 text columns token.si token.ci in
          rw (h, segments_loop)
            (segments_loop-Sound tokens overrides text columns'
              (emit_token kind (byte_len text) token found.0 found.1 e) fits
              (emit_token-Sound kind (byte_len text) token found.0 found.1 e fits s))
    ]

-- Whatever the trace, the segments of a text of at most `usize_max` bytes follow one another in
-- the document, none of them empty, and each has its byte range inside the text.
pub segments_lem :
    (reconciled : List TokenPoint) (overrides : Option Overrides) (text : Text)
    → byte_len text ≤ usize_max
    → IsOrdered 0 0 (semantic_tokens_reconciled reconciled overrides text)
      × All (InText (byte_len text)) (segments reconciled overrides text)
unfolding semantic_tokens_reconciled segments
segments_lem reconciled overrides text fits =
    let done =
      segments_loop-Sound reconciled overrides text new_columns new_emitter fits
        (record { ordered = (refl, refl); in_text = tt }) in
    (OrderedTo-IsOrdered 0 0 (segments reconciled overrides text) _ _ done.ordered, done.in_text)
