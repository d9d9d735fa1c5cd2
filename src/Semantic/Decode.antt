-- ===== src/Semantic/Decode.antt =====
-- semantic.rs: what a client reads from `encode`.
use lsp.Base.{
  ℕ, ◌+◌, ◌-◌, ◌≤◌, ◌≡◌, refl, ap, true, false, Option, List, [], ◌∷◌, map, ◌==◌, if◌then◌else◌,
  arith, All,
}
use lsp.Base.Text.{Text, byte_len, u32_max, usize_max}
use lsp.Types.{TokenPoint}
use lsp.Trace.{reconcile_in}
use lsp.Semantic.Legend.{Overrides, index}
use lsp.Semantic.Segments.{SemanticToken, semantic_tokens}
use lsp.Semantic.Encoding.{
  steps_back, delta_col, fits_wire, encode_from, encode, semantic_tokens_data,
}
use lsp.Semantic.Order.{Follows, IsOrdered, segments_lem}

-- row, column, length, legend index and modifiers
abbrev pub Reading : Type 0
Reading = ℕ × ℕ × ℕ × ℕ × ℕ

abbrev pub reading : SemanticToken → Reading
reading t = (t.row, t.col, t.len, index t.kind, 0)

-- The protocol's reading of the data: rows add up, and a column adds to the one before it on the same row.
unfoldable pub decode_from : ℕ → ℕ → List ℕ → List Reading
decode_from row col (d_row ∷ d_col ∷ len ∷ kind ∷ modifiers ∷ data_rest) =
    let col' = if d_row == 0 then col + d_col else d_col in
    (row + d_row, col', len, kind, modifiers) ∷ decode_from (row + d_row) col' data_rest
decode_from row col _ = []

abbrev pub FitsWire : SemanticToken → Type 0
FitsWire t = (t.row ≤ u32_max) × (t.col ≤ u32_max) × (t.len ≤ u32_max)

not-steps_back : (t : SemanticToken) (r c : ℕ) → Follows r c t → steps_back t r c ≡ false
unfolding steps_back
not-steps_back t r c f = ground (arith, f.0, f.1)

fits-fits_wire :
    (t : SemanticToken) (r c : ℕ)
    → FitsWire t
    → fits_wire (t.row - r) (delta_col (t.row - r) t.col c) t.len ≡ true
unfolding fits_wire
fits-fits_wire t r c f = ground (arith, f.0, f.1, f.2)

row_back : (t : SemanticToken) (r c : ℕ) → Follows r c t → r + (t.row - r) ≡ t.row
row_back t r c f = ground (arith, f.1)

col_back :
    (t : SemanticToken) (r c : ℕ)
    → Follows r c t
    → (if (t.row - r) == 0
        then c + delta_col (t.row - r) t.col c
        else delta_col (t.row - r) t.col c)
      ≡ t.col
col_back t r c f = ground (arith, f.1)

pub decode-encode_from :
    (r c : ℕ) (tokens : List SemanticToken)
    → IsOrdered r c tokens
    → All FitsWire tokens
    → decode_from r c (encode_from r c tokens) ≡ map reading tokens
unfolding decode_from encode_from
decode-encode_from r c [] o f = refl
decode-encode_from r c (t ∷ ts) o f =
    rw (not-steps_back t r c o.0, fits-fits_wire t r c f.0, row_back t r c o.0, col_back t r c o.0)
      (ap (λ (rest : List Reading). reading t ∷ rest) (decode-encode_from t.row t.col ts o.1 f.1))

-- A client that reads the data of a document's trace gets its semantic tokens back, all of them
-- and in order, where their positions and lengths fit the wire's 32-bit integers.
pub decode-semantic_tokens_data :
    (events : List TokenPoint) (overrides : Option Overrides) (text : Text)
    → byte_len text ≤ usize_max
    → All FitsWire (semantic_tokens events overrides text)
    → decode_from 0 0 (semantic_tokens_data events overrides text)
      ≡ map reading (semantic_tokens events overrides text)
unfolding semantic_tokens_data encode semantic_tokens
decode-semantic_tokens_data events overrides text fits wide =
    decode-encode_from 0 0 (semantic_tokens events overrides text)
      (segments_lem (reconcile_in events text) overrides text fits).0 wide
