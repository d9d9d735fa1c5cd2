-- ===== src/Jsonrpc/Blocks.antt =====
-- rs/src/jsonrpc.rs: what `read_message` makes of a block of header lines, and that reading uses its stream up.
use lsp.Base.{
  ℕ, ◌<◌, ◌≡◌, refl, ap, ◌∙◌, Bool, true, false, Bool-cases, inl, inr, none, List, [], ◌∷◌, ◌++◌,
  append_assoc, arith, ◌==◌, All,
}
use lsp.Base.Text.{Text}
use lsp.Jsonrpc.Framing.{
  lines_from, joined, is_terminated, is_line_end, trim_line, split_once, Declared, is_blank,
  header_length, read_headers, block,
}

-- a character of a header line
abbrev pub InLine : ℕ → Type 0
InLine b = (b < 0x80) × ((b == 10) ≡ false)

-- a header without its line end: ASCII, not empty, and without a carriage return at its end
abbrev pub IsHeader : Text → Type 0
IsHeader h = All InLine h × (trim_line h ≡ h) × (is_blank h ≡ false)

abbrev pub line_end : List ℕ
line_end = 13 ∷ 10 ∷ []

-- headers with the blank line behind them, and `rest`
unfoldable pub block_before : List Text → List ℕ → List ℕ
block_before [] rest = 13 ∷ 10 ∷ rest
block_before (h ∷ hs) rest = h ++ 13 ∷ 10 ∷ block_before hs rest

lines_from-line :
    (line h rest : List ℕ)
    → All InLine h
    → lines_from line (h ++ 13 ∷ 10 ∷ rest) ≡ (line ++ (h ++ line_end)) ∷ lines_from [] rest
unfolding lines_from
lines_from-line line [] rest plain =
    ap (λ (l : List ℕ). l ∷ lines_from [] rest) (append_assoc line (13 ∷ []) (10 ∷ []))
lines_from-line line (b ∷ h) rest plain = rw (plain.0.1) (
    lines_from-line (line ++ b ∷ []) h rest plain.1
    ∙ ap (λ (l : List ℕ). l ∷ lines_from [] rest) (append_assoc line (b ∷ []) (h ++ line_end)))

pub joined-lines_from : (line bs : List ℕ) → joined (lines_from line bs) ≡ line ++ bs
unfolding joined lines_from
joined-lines_from [] [] = refl
joined-lines_from (b ∷ line) [] = refl
joined-lines_from line (b ∷ bs) = elim (Bool-cases (b == 10)) [
  | inl e ↦ rw e (
      ap (λ (l : List ℕ). (line ++ b ∷ []) ++ l) (joined-lines_from [] bs)
      ∙ append_assoc line (b ∷ []) bs)
  | inr e ↦ rw e (joined-lines_from (line ++ b ∷ []) bs ∙ append_assoc line (b ∷ []) bs)
]

is_terminated-line : (h : List ℕ) → is_terminated (h ++ line_end) ≡ true
unfolding is_terminated
is_terminated-line [] = refl
is_terminated-line (b ∷ []) = refl
is_terminated-line (b ∷ c ∷ h) = is_terminated-line (c ∷ h)

trim_line-line : (h : Text) → trim_line (h ++ line_end) ≡ trim_line h
unfolding trim_line
trim_line-line [] = refl
trim_line-line (c ∷ h) = rw (trim_line-line h) refl

pub trim_line_plain : (t : Text) → All (λ c. is_line_end c ≡ false) t → trim_line t ≡ t
unfolding trim_line
trim_line_plain [] h = refl
trim_line_plain (c ∷ []) h = rw (h.0) refl
trim_line_plain (c ∷ d ∷ t) h = rw (trim_line_plain (d ∷ t) h.1) refl

-- ASCII bytes are read as the text of those bytes
abbrev pub ReadsAscii : (List ℕ → Text) → Type 0
ReadsAscii from_utf8_lossy = (bs : List ℕ) → All (λ b. b < 0x80) bs → from_utf8_lossy bs ≡ bs

module _ (quoted : Text → Text) where
  -- the length that the last `Content-Length` declares
  unfoldable pub declared_by : List Text → Declared → Declared
  declared_by [] declared = declared
  declared_by (h ∷ hs) declared = declared_by hs (header_length quoted (split_once b':' h) declared)

module _ (from_utf8_lossy : List ℕ → Text) (quoted : Text → Text) where
  is_ascii : (h : List ℕ) → All InLine h → All (λ b. b < 0x80) (h ++ line_end)
  is_ascii [] plain = (omega arith, (omega arith, tt))
  is_ascii (b ∷ h) plain = (plain.0.0, is_ascii h plain.1)

  header_line :
      (fails started : Bool) (declared : Declared) (h : Text) (lines : List (List ℕ))
      → ReadsAscii from_utf8_lossy
      → IsHeader h
      → read_headers from_utf8_lossy quoted fails started declared ((h ++ line_end) ∷ lines)
        ≡ read_headers from_utf8_lossy quoted fails true
            (header_length quoted (split_once b':' h) declared)
            lines
  unfolding read_headers
  header_line true started declared h lines ascii (plain, trimmed, filled) =
      let text =
        ap trim_line (ascii (h ++ line_end) (is_ascii h plain)) ∙ trim_line-line h ∙ trimmed in
      rw (text, is_terminated-line h, filled) refl
  header_line false started declared h lines ascii (plain, trimmed, filled) =
      let text =
        ap trim_line (ascii (h ++ line_end) (is_ascii h plain)) ∙ trim_line-line h ∙ trimmed in
      rw (text, filled) refl

  blank_line :
      (fails : Bool) (declared : Declared) (lines : List (List ℕ))
      → ReadsAscii from_utf8_lossy
      → read_headers from_utf8_lossy quoted fails true declared (line_end ∷ lines)
        ≡ block declared lines
  unfolding read_headers is_terminated trim_line
  blank_line true declared lines ascii = rw (ascii line_end (is_ascii [] tt)) refl
  blank_line false declared lines ascii = rw (ascii line_end (is_ascii [] tt)) refl

  started_block :
      (fails : Bool) (declared : Declared) (hs : List Text) (rest : List ℕ)
      → ReadsAscii from_utf8_lossy
      → All IsHeader hs
      → read_headers from_utf8_lossy quoted fails true declared
          (lines_from [] (block_before hs rest))
        ≡ block (declared_by quoted hs declared) (lines_from [] rest)
  unfolding block_before declared_by
  started_block fails declared [] rest ascii headers =
      ap (read_headers from_utf8_lossy quoted fails true declared) (lines_from-line [] [] rest tt)
      ∙ blank_line fails declared (lines_from [] rest) ascii
  started_block fails declared (h ∷ hs) rest ascii headers =
      ap (read_headers from_utf8_lossy quoted fails true declared)
        (lines_from-line [] h (block_before hs rest) headers.0.0)
      ∙ header_line fails true declared h (lines_from [] (block_before hs rest)) ascii headers.0
      ∙ started_block fails (header_length quoted (split_once b':' h) declared) hs rest ascii
          headers.1

  -- A block of at least one header is read to its blank line.
  pub read_headers-block_before :
      (fails : Bool) (h : Text) (hs : List Text) (rest : List ℕ)
      → ReadsAscii from_utf8_lossy
      → All IsHeader (h ∷ hs)
      → read_headers from_utf8_lossy quoted fails false none
          (lines_from [] (block_before (h ∷ hs) rest))
        ≡ block (declared_by quoted (h ∷ hs) none) (lines_from [] rest)
  unfolding block_before declared_by
  read_headers-block_before fails h hs rest ascii headers =
      ap (read_headers from_utf8_lossy quoted fails false none)
        (lines_from-line [] h (block_before hs rest) headers.0.0)
      ∙ header_line fails false none h (lines_from [] (block_before hs rest)) ascii headers.0
      ∙ started_block fails (header_length quoted (split_once b':' h) none) hs rest ascii headers.1
