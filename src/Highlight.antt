-- ===== src/Highlight.antt =====
-- rs/src/highlight.rs: `build`, the spans to colour and the tokens of one parse. What the engine's recovery reports, its
-- errors and whether one was fatal, is a parameter.
use lsp.Base.{ℕ, ◌+◌, ◌≤◌, In, Bool, false, not, ◌||◌, Option, List, [], ◌∷◌, map, leb, ◌==◌}
use lsp.Base.Text.{Text, byte_len, saturating_add}
use lsp.Types.{TokenPoint}
use lsp.Trace.{reconcile_in}
use lsp.Semantic.Legend.{TokenType, Overrides}
use lsp.Semantic.Segments.{SemanticToken, Segment, token_of, segments}

pub record Span : Type 0 where
  pub start : ℕ
  pub end : ℕ
  pub kind : TokenType

pub record Highlight (Failure : Type 0) : Type 0 where
  pub spans : List Span
  pub tokens : List SemanticToken
  pub reconciled : List TokenPoint
  pub errors : List Failure
  pub partial : Bool

-- whether some event ends at or past the end of the text
unfoldable pub any_reaches : ℕ → List TokenPoint → Bool
any_reaches n [] = false
any_reaches n (event ∷ events) = leb n (saturating_add event.si event.len) || any_reaches n events

abbrev pub span_of : Segment → Span
span_of s = record { start = s.start; end = s.end; kind = s.kind }

unfoldable pub build_highlight :
    {Failure : Type 0}
    → List TokenPoint
    → List Failure
    → Bool
    → Option Overrides
    → Text
    → Highlight Failure
unfolding any_reaches
build_highlight events errors fatal overrides text =
    let reached_end = byte_len text == 0 || any_reaches (byte_len text) events in
    let reconciled = reconcile_in events text in
    let found = segments reconciled overrides text in
    record {
      spans = map span_of found;
      tokens = map token_of found;
      reconciled = reconciled;
      errors = errors;
      partial = fatal || not reached_end;
    }

-- some event ends at or behind the offset
abbrev pub Reaches : ℕ → List TokenPoint → Type 0
Reaches n events = (event : TokenPoint) × In event events × (n ≤ event.si + event.len)
