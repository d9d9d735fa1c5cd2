-- ===== src/Types.antt =====
-- rs/src/types.rs: positions, ranges, encodings, documents, and what one parse collects.
use lsp.Base.{ℕ, Bool, Option, none, List}
use lsp.Base.Text.{Text}

-- i64: `negsuc n` is -(n + 1)
pub data ℤ : Type 0 where
  pos : ℕ → ℤ
  negsuc : ℕ → ℤ

pub record Position : Type 0 where
  pub line : ℕ
  pub character : ℕ

pub record Range : Type 0 where
  pub start : Position
  pub end : Position

pub data PositionEncoding : Type 0 where
  utf16_units utf8_bytes : PositionEncoding

-- The text, and the line index that `line_starts` caches beside it.
pub record Doc : Type 0 where
  pub uri : Text
  pub language_id : Text
  pub version : ℤ
  pub text : Text
  pub encoding : PositionEncoding
  pub line_starts_cell : Option (List ℕ)

-- Doc::new and Doc::with_encoding
abbrev pub new_doc : Text → Text → ℤ → Text → Doc
new_doc uri language_id version text = record {
  uri = uri;
  language_id = language_id;
  version = version;
  text = text;
  encoding = utf16_units;
  line_starts_cell = none;
}

abbrev pub with_encoding : Doc → PositionEncoding → Doc
with_encoding d encoding = record d { encoding = encoding }

-- trace.rs: the position slice of one token event
pub record TokenPoint : Type 0 where
  pub name : Text
  pub si : ℕ
  pub ri : ℕ
  pub ci : ℕ
  pub len : ℕ
  pub src : Text

pub data RuleEventState : Type 0 where
  opened closed : RuleEventState

pub record RuleEvent : Type 0 where
  pub i : ℕ
  pub name : Text
  pub state : RuleEventState
  pub forced : Bool
  pub r : Text
  pub o0 : Option TokenPoint
  pub c0 : Option TokenPoint
