-- ===== src/Jsonrpc/Unframed.antt =====
-- rs/src/jsonrpc.rs: what `read_message` makes of a block of headers, and of one that declares no usable length.
use lsp.Base.{
  ℕ, ◌≡◌, refl, ap, ◌∙◌, Bool, true, false, Bool-cases, ◌&&◌, inl, inr, Option, none, some, List,
  [], ◌∷◌, arith, All,
}
use lsp.Base.Text.{Text}
use lsp.Base.Trim.{trim}
use lsp.Base.Decimal.{parse_u64}
use lsp.Jsonrpc.{Message, RpcError, frame_error, is_some}
use lsp.Jsonrpc.Framing.{
  split_once, Declared, is_content_length, header_length, joined, lines_from, frame,
}
use lsp.Jsonrpc.Reader.{Json, refused, read_declared, read_framed, read_message}
use lsp.Jsonrpc.Blocks.{
  IsHeader, block_before, ReadsAscii, declared_by, joined-lines_from, read_headers-block_before,
}

-- a field that may declare a length, with the name and the value
abbrev pub declares : Option (Text × Text) → Bool
declares none = false
declares (some (name, value)) = is_content_length name && is_some (parse_u64 (trim value))

abbrev LacksLength : Declared → Type 0
LacksLength none = Unit
LacksLength (some (inr error)) = Unit
LacksLength (some (inl n)) = ⊥

module _ (quoted : Text → Text) where
  header_length-LacksLength :
      (header : Option (Text × Text)) (declared : Declared)
      → declares header ≡ false
      → LacksLength declared
      → LacksLength (header_length quoted header declared)
  unfolding header_length
  header_length-LacksLength none declared h lacks = lacks
  header_length-LacksLength (some (name, value)) declared h lacks =
      elim (Bool-cases (is_content_length name)) [
        | inr other ↦ rw other lacks
        | inl named ↦ rw named (unparsed (parse_u64 (trim value)) (rw named at h))
      ]
    where
      unparsed :
          (o : Option ℕ)
          → (true && is_some o) ≡ false
          → LacksLength (some (lsp.Jsonrpc.Framing.length_or quoted o (trim value)))
      unparsed none h = tt
      unparsed (some n) h = absurd (ground (arith, h))

  declared_by-LacksLength :
      (hs : List Text) (declared : Declared)
      → All (λ h. declares (split_once b':' h) ≡ false) hs
      → LacksLength declared
      → LacksLength (declared_by quoted hs declared)
  unfolding declared_by
  declared_by-LacksLength [] declared h lacks = lacks
  declared_by-LacksLength (x ∷ hs) declared h lacks =
      declared_by-LacksLength hs (header_length quoted (split_once b':' x) declared) h.1
        (header_length-LacksLength (split_once b':' x) declared h.0 lacks)

module _ {Value : Type 0} (from_utf8_lossy : List ℕ → Text) (quoted : Text → Text)
    (json : Json Value) where
  pub read_message-block_before :
      (fails : Bool) (h : Text) (hs : List Text) (rest : List ℕ)
      → ReadsAscii from_utf8_lossy
      → All IsHeader (h ∷ hs)
      → read_message from_utf8_lossy quoted json fails (block_before (h ∷ hs) rest)
        ≡ read_declared json (declared_by quoted (h ∷ hs) none) rest
  unfolding read_message read_framed
  read_message-block_before fails h hs rest ascii headers =
      ap (read_framed json)
        (read_headers-block_before from_utf8_lossy quoted fails h hs rest ascii headers)
      ∙ ap (read_declared json (declared_by quoted (h ∷ hs) none)) (joined-lines_from [] rest)

  lacking :
      (declared : Declared) (rest : List ℕ)
      → LacksLength declared
      → (text : Text) × (read_declared json declared rest ≡ (refused (frame_error text), rest))
  unfolding read_declared
  lacking none rest h = (_, refl)
  lacking (some (inr error)) rest h = (_, refl)
  lacking (some (inl n)) rest h = absurd h

  -- A block of ASCII headers, none of which declares a length that can be read, is refused as a
  -- frame error, and the stream goes on just behind its blank line.
  pub unframed_block :
      (fails : Bool) (h : Text) (hs : List Text) (rest : List ℕ)
      → ReadsAscii from_utf8_lossy
      → All IsHeader (h ∷ hs)
      → All (λ x. declares (split_once b':' x) ≡ false) (h ∷ hs)
      → (text : Text) × (read_message from_utf8_lossy quoted json fails (block_before (h ∷ hs) rest)
          ≡ (refused (frame_error text), rest))
  unframed_block fails h hs rest ascii headers none_declares =
      let (text, read) =
        lacking (declared_by quoted (h ∷ hs) none) rest
          (declared_by-LacksLength quoted (h ∷ hs) none none_declares tt) in
      (text, read_message-block_before fails h hs rest ascii headers ∙ read)
