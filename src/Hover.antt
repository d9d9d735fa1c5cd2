-- ===== src/Hover.antt =====
-- rs/src/hover.rs: the token under a position, and the hover over it, which no token has a description for yet. Of an
-- analysis only the reconciled trace is used.
use lsp.Base.{ℕ, Bool, ltb, leb, ◌&&◌, Option, none, some, List, min, find}
use lsp.Base.Text.{Text, codes, byte_len, saturating_add}
use lsp.Types.{Position, Range, Doc, TokenPoint}
use lsp.Documents.{position_at, offset_at}
use lsp.Registry.Entries.{Entry}

pub record MarkupContent : Type 0 where
  pub kind : Text
  pub value : Text

pub record Hover : Type 0 where
  pub contents : MarkupContent
  pub range : Option Range

abbrev pub markdown : Text → MarkupContent
markdown value = record { kind = codes "markdown"; value = value }

abbrev pub plaintext : Text → MarkupContent
plaintext value = record { kind = codes "plaintext"; value = value }

-- whether a token's source covers a byte
unfoldable pub covers : ℕ → TokenPoint → Bool
covers offset token = leb token.si offset && ltb offset (saturating_add token.si token.len)

unfoldable pub token_at : List TokenPoint → Doc → Position → Option TokenPoint
unfolding covers offset_at
token_at reconciled doc position = find (covers (offset_at doc position)) reconciled

unfoldable pub token_range : TokenPoint → Doc → Range
unfolding position_at
token_range token doc = record {
  start = position_at doc token.si;
  end = position_at doc (min (saturating_add token.si token.len) (byte_len doc.text));
}

abbrev pub described : Doc → TokenPoint → Option Text → Option Hover
described doc token none = none
described doc token (some description) =
    some (record { contents = markdown description; range = some (token_range token doc) })

module _ {Value : Type 0} where
  -- `describe`, which has nothing to say yet
  abbrev pub describe : TokenPoint → Entry Value → Option Text
  describe token e = none

  abbrev pub hover_at : Entry Value → Doc → Option TokenPoint → Option Hover
  hover_at e doc none = none
  hover_at e doc (some token) = described doc token (describe token e)

  unfoldable pub hover : List TokenPoint → Entry Value → Doc → Position → Option Hover
  unfolding token_at token_range
  hover reconciled e doc position = hover_at e doc (token_at reconciled doc position)
