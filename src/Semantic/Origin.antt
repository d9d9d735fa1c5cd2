-- ===== src/Semantic/Origin.antt =====
-- semantic.rs: the token of the trace that a segment comes from.
use lsp.Base.{
  ℕ, ◌+◌, ◌-◌, ◌≤◌, ◌≡◌, refl, min, ◌&&◌, ◌||◌, Bool-cases, Option-cases, inl, inr, In, Option,
  some, List, [], ◌∷◌, ltb, ◌==◌, arith, All, All-append,
}
use lsp.Base.Text.{Text, byte_len, len_utf16, saturating_add, usize_max}
use lsp.Types.{TokenPoint}
use lsp.Columns.{Columns, new_columns, column}
use lsp.Semantic.Legend.{TokenType, Overrides, token_type}
use lsp.Semantic.Segments.{
  Segment, Emitter, new_emitter, emit, split_feeds, has_feed, part_segment, emit_parts,
  whole_segment, emit_token, segments_loop, segments,
}

-- some token begins at or before the byte, clamped to the text, and has a name of that type
abbrev pub IsFrom : Option Overrides → ℕ → List TokenPoint → TokenType → ℕ → Type 0
IsFrom overrides n tokens kind start =
    (token : TokenPoint) × In token tokens
    × (token_type token.name overrides ≡ some kind)
    × (min token.si n ≤ start)

module _ (overrides : Option Overrides) (n : ℕ) (fits : n ≤ usize_max)
    (tokens : List TokenPoint) where
  abbrev Comes : Segment → Type 0
  Comes s = IsFrom overrides n tokens s.kind s.start

  emit-Comes : (s : Segment) (e : Emitter) → Comes s → All Comes e.out → All Comes (emit s e).out
  unfolding emit
  emit-Comes s e c h = elim (Bool-cases (ltb s.len 1)) [
    | inl p ↦ rw p h
    | inr p ↦
        rw p
          (elim (Bool-cases
            (ltb s.row e.prev_row || (s.row == e.prev_row && ltb s.col e.prev_col))) [
              | inl q ↦ rw q h
              | inr q ↦ rw q (All-append Comes e.out (s ∷ []) h (c, tt))
            ])
  ]

  emit_parts-Comes :
      (token : TokenPoint) (kind : TokenType) (row i col col_chars offset : ℕ) (parts : List Text)
      (e : Emitter)
      → In token tokens
      → token_type token.name overrides ≡ some kind
      → min token.si n ≤ offset
      → All Comes e.out
      → All Comes (emit_parts kind n row i col col_chars offset parts e).out
  unfolding emit_parts saturating_add
  emit_parts-Comes token kind row i col col_chars offset [] e there named low h = h
  emit_parts-Comes token kind row i col col_chars offset (part ∷ parts) e there named low h =
      emit_parts-Comes token kind row (i + 1) col col_chars
        (min (saturating_add offset (byte_len part + 1)) n) parts
        (emit (part_segment kind n row i col col_chars offset part) e) there named (omega arith)
        (emit-Comes (part_segment kind n row i col col_chars offset part) e
          (token, there, named, low) h)

  emit_token-Comes :
      (token : TokenPoint) (kind : TokenType) (col col_chars : ℕ) (e : Emitter)
      → In token tokens
      → token_type token.name overrides ≡ some kind
      → All Comes e.out
      → All Comes (emit_token kind n token col col_chars e).out
  unfolding emit_token saturating_add
  emit_token-Comes token kind col col_chars e there named h =
      elim (Bool-cases (has_feed token.src)) [
        | inl f ↦ rw f (
            emit_parts-Comes token kind (token.ri - 1) 0 col col_chars (min token.si n)
              ((split_feeds token.src).0 ∷ (split_feeds token.src).1) e there named (omega arith) h)
        | inr f ↦ rw f (
            emit-Comes (whole_segment kind n token col col_chars) e
              (token, there, named, omega arith) h)
      ]

segments_loop-Comes :
    (tokens rest : List TokenPoint) (overrides : Option Overrides) (text : Text) (columns : Columns)
    (e : Emitter)
    → (fits : byte_len text ≤ usize_max) → ((token : TokenPoint) → In token rest → In token tokens)
    → All (Comes overrides (byte_len text) fits tokens) e.out
    → All
        (Comes overrides (byte_len text) fits tokens)
        (segments_loop rest overrides text columns e).out
unfolding segments_loop
segments_loop-Comes tokens [] overrides text columns e fits among h = h
segments_loop-Comes tokens (token ∷ rest) overrides text columns e fits among h =
    elim (Option-cases (token_type token.name overrides)) [
      | inl k ↦
          rw (k, segments_loop)
            (segments_loop-Comes tokens rest overrides text columns e fits (λ t i. among t (inr i))
              h)
      | inr (kind, k) ↦
          let (columns', found) = column len_utf16 text columns token.si token.ci in
          rw (k, segments_loop)
            (segments_loop-Comes tokens rest overrides text columns'
              (emit_token kind (byte_len text) token found.0 found.1 e) fits
              (λ t i. among t (inr i))
              (emit_token-Comes overrides (byte_len text) fits tokens token kind found.0 found.1 e
                (among token (inl refl)) k h))
    ]

pub segments-IsFrom :
    (tokens : List TokenPoint) (overrides : Option Overrides) (text : Text)
    → byte_len text ≤ usize_max
    → All
        (λ (s : Segment). IsFrom overrides (byte_len text) tokens s.kind s.start)
        (segments tokens overrides text)
unfolding segments
segments-IsFrom tokens overrides text fits =
    segments_loop-Comes tokens tokens overrides text new_columns new_emitter fits (λ t i. i) tt
