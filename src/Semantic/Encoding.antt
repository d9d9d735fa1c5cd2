-- ===== src/Semantic/Encoding.antt =====
-- rs/src/semantic.rs: `encode`, the five integers for each token.
use lsp.Base.{ℕ, ◌-◌, Bool, ◌&&◌, ◌||◌, Option, List, [], ◌∷◌, ltb, leb, ◌==◌, if◌then◌else◌}
use lsp.Base.Text.{Text, u32_max}
use lsp.Types.{TokenPoint}
use lsp.Semantic.Legend.{Overrides, index}
use lsp.Semantic.Segments.{SemanticToken, semantic_tokens}

-- `continue` for a token that is empty or steps backwards
unfoldable pub steps_back : SemanticToken → ℕ → ℕ → Bool
steps_back token prev_row prev_col =
    ltb token.len 1 || (ltb token.row prev_row || (token.row == prev_row && ltb token.col prev_col))

abbrev pub delta_col : ℕ → ℕ → ℕ → ℕ
delta_col d_row col prev_col = if d_row == 0 then col - prev_col else col

-- whether all three values fit the wire's integers
unfoldable pub fits_wire : ℕ → ℕ → ℕ → Bool
fits_wire d_row d_col len = leb d_row u32_max && (leb d_col u32_max && leb len u32_max)

unfoldable pub encode_from : ℕ → ℕ → List SemanticToken → List ℕ
encode_from prev_row prev_col [] = []
encode_from prev_row prev_col (token ∷ tokens) =
    let skipped = encode_from prev_row prev_col tokens in
    let d_row = token.row - prev_row in
    let d_col = delta_col d_row token.col prev_col in
    let further = encode_from token.row token.col tokens in
    if steps_back token prev_row prev_col
    then skipped
    else if fits_wire d_row d_col token.len
    then d_row ∷ d_col ∷ token.len ∷ index token.kind ∷ 0 ∷ further
    else skipped

unfoldable pub encode : List SemanticToken → List ℕ
encode tokens = encode_from 0 0 tokens

unfoldable pub semantic_tokens_data : List TokenPoint → Option Overrides → Text → List ℕ
semantic_tokens_data events overrides text = encode (semantic_tokens events overrides text)
