-- ===== src/Analyze.antt =====
-- rs/src/analyze.rs: everything that one parse yields, from what the engine's recovery returns and what the mux
-- collected. The engine's errors, their equality and their structured form are parameters.
use lsp.Base.{
  ℕ, ◌-◌, ◌+◌, max, min, Bool, true, false, not, ◌&&◌, Option, none, some, List, [], ◌∷◌, ◌++◌, map,
  reverse, if◌then◌else◌, take,
}
use lsp.Base.Text.{Text, codes, byte_len, len_utf8, take_bytes, text_eq}
use lsp.Types.{Range, Doc, TokenPoint, PositionEncoding, utf16_units, utf8_bytes}
use lsp.Documents.{down_to_boundary, range_from}
use lsp.Trace.{reconcile_in}
use lsp.Semantic.Segments.{SemanticToken, Segment, token_of, segments}
use lsp.Semantic.Encoding.{encode}
use lsp.Outline.Nesting.{Symbols}
use lsp.Outline.Symbols.{outline}
use lsp.Registry.Entries.{Entry, language_id, is_clean}
use lsp.Instances.Mux.{Collected}

pub record Diagnostic : Type 0 where
  pub range : Range
  pub severity : ℕ
  pub code : Option Text
  pub source : Text
  pub message : Text
  pub code_description : Option Text

pub record EngineDiagnostic : Type 0 where
  pub code : Text
  pub message : Text
  pub hint : Text
  pub row : ℕ
  pub col : ℕ
  pub pos : ℕ
  pub len : ℕ

pub record SemanticTokens : Type 0 where
  pub wire : List ℕ
  pub tokens : List SemanticToken

pub record Analysis (Error Parsed : Type 0) : Type 0 where
  pub value : Option Parsed
  pub errors : List Error
  pub failed : Bool
  pub diagnostics : List Diagnostic
  pub semantic_tokens : Option SemanticTokens
  pub outline_symbols : Symbols
  pub reconciled : List TokenPoint

-- what the engine's `parse_recover` returns
pub record Recovery (Error Parsed : Type 0) : Type 0 where
  pub value : Option Parsed
  pub errors : List Error
  pub fatal : Option Error

abbrev pub severity_error : ℕ
severity_error = 1

abbrev pub error_registry : Text
error_registry = codes "https://tabnas.dev/errors/"

abbrev pub is_filled : Text → Bool
is_filled [] = false
is_filled (c ∷ t) = true

unfoldable pub with_hint : Text → Text → Text
with_hint message [] = message
with_hint message (c ∷ hint) = message ++ b'\n' ∷ b'\n' ∷ c ∷ hint

unfoldable pub diagnostic_of : Text → Doc → EngineDiagnostic → Diagnostic
unfolding with_hint range_from
diagnostic_of source doc d = record {
  range = range_from doc d.row d.col d.pos d.len;
  severity = severity_error;
  code = if is_filled d.code then some d.code else none;
  source = source;
  message = with_hint d.message d.hint;
  code_description =
      if is_filled d.code && not (text_eq d.code (codes "unknown"))
      then some (error_registry ++ d.code)
      else none;
}

abbrev pub if_read : Text → Doc → Option EngineDiagnostic → List Diagnostic
if_read source doc none = []
if_read source doc (some d) = diagnostic_of source doc d ∷ []

-- the columns and lengths of segments in bytes
unfoldable pub chars_len : Text → ℕ
chars_len [] = 0
chars_len (c ∷ t) = len_utf8 c + chars_len t

unfoldable pub byte_token : Text → Segment → SemanticToken
unfolding down_to_boundary take_bytes chars_len
byte_token text segment =
    let start = down_to_boundary text (min segment.start (byte_len text)) in
    record {
      row = segment.row;
      col = chars_len (take segment.col_chars (reverse (take_bytes start text)));
      len = max (segment.end - start) 1;
      col_chars = segment.col_chars;
      len_chars = segment.len_chars;
      kind = segment.kind;
    }

unfoldable pub byte_tokens : List Segment → Text → List SemanticToken
unfolding byte_token
byte_tokens segments text = map (byte_token text) segments

abbrev pub data_in : PositionEncoding → List Segment → Text → List ℕ
data_in utf16_units parts text = encode (map token_of parts)
data_in utf8_bytes parts text = encode (byte_tokens parts text)

module _ {Value : Type 0} where
  unfoldable pub source_of : Option (Entry Value) → Text
  source_of none = codes "tabnas"
  source_of (some e) = codes "tabnas:" ++ language_id e

  unfoldable pub semantic_tokens_of_reconciled :
      List TokenPoint → Entry Value → Doc → SemanticTokens
  unfolding segments encode byte_tokens
  semantic_tokens_of_reconciled reconciled e doc =
      let parts = segments reconciled e.semantic_tokens doc.text in
      record { wire = data_in doc.encoding parts doc.text; tokens = map token_of parts }

  unfoldable pub semantic_tokens_of : List TokenPoint → Entry Value → Doc → SemanticTokens
  unfolding semantic_tokens_of_reconciled reconcile_in
  semantic_tokens_of lex e doc = semantic_tokens_of_reconciled (reconcile_in lex doc.text) e doc

module _ {Error : Type 0} where
  module _ (read : Error → Option EngineDiagnostic) {Value : Type 0} where
    unfoldable pub diagnostics_of : List Error → Option (Entry Value) → Doc → List Diagnostic
    unfolding diagnostic_of source_of
    diagnostics_of [] e doc = []
    diagnostics_of (error ∷ errors) e doc =
        if_read (source_of e) doc (read error) ++ diagnostics_of errors e doc

  module _ (same : Error → Error → Bool) where
    unfoldable pub ends_with : List Error → Error → Bool
    ends_with [] fatal = false
    ends_with (error ∷ []) fatal = same error fatal
    ends_with (a ∷ b ∷ errors) fatal = ends_with (b ∷ errors) fatal

    unfoldable pub errors_of : List Error → Option Error → List Error
    unfolding ends_with
    errors_of errors none = errors
    errors_of errors (some fatal) = if ends_with errors fatal then errors else errors ++ fatal ∷ []

abbrev pub is_fatal {ℓ} : {A : Type ℓ} → Option A → Bool
is_fatal none = false
is_fatal (some error) = true

unfoldable pub analyze :
    {Error Parsed Value : Type 0}
    → (Error → Error → Bool)
    → (Error → Option EngineDiagnostic)
    → Recovery Error Parsed
    → Collected
    → Entry Value
    → Doc
    → Analysis Error Parsed
unfolding errors_of diagnostics_of semantic_tokens_of_reconciled reconcile_in outline
analyze same read recovery collected e doc =
    let errors = errors_of same recovery.errors recovery.fatal in
    let reconciled = reconcile_in collected.lex doc.text in
    record {
      value = recovery.value;
      errors = errors;
      failed = is_fatal recovery.fatal;
      diagnostics = diagnostics_of read errors (some e) doc;
      semantic_tokens =
          if is_clean e then some (semantic_tokens_of_reconciled reconciled e doc) else none;
      outline_symbols = outline collected.rules e.outline_rules doc;
      reconciled = reconciled;
    }
