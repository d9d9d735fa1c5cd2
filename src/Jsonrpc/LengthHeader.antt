-- ===== src/Jsonrpc/LengthHeader.antt =====
-- rs/src/jsonrpc.rs: the header that `write_message` writes, as `read_message` reads it.
use lsp.Base.{
  ℕ, ◌≤◌, ◌<◌, ◌≡◌, refl, ap, ◌∙◌, Bool, true, false, not, ◌&&◌, inl, Option, none, some, List, [],
  ◌∷◌, ◌++◌, append_assoc, arith, ltb, ◌==◌, All, All-append, length,
}
use lsp.Base.Text.{Text, codes, bytes, utf8, text_eq, u64_max}
use lsp.Base.Trim.{trim, IsSolid, is_whitespace, trim_start, to_ascii_lowercase, trim_solid}
use lsp.Base.Decimal.{decimal, parse_u64, IsDigit, decimal-IsDigit, parse_u64-decimal}
use lsp.Jsonrpc.Framing.{
  is_line_end, split_once, is_content_length, length_or, header_length, frame,
}
use lsp.Jsonrpc.Blocks.{InLine, IsHeader, block_before, trim_line_plain}

-- the header that `write_message` writes
abbrev pub length_header : ℕ → Text
length_header n = codes "Content-Length: " ++ decimal n

abbrev IsAscii : ℕ → Type 0
IsAscii b = b < 0x80

bytes_ascii : (t : Text) → All IsAscii t → bytes t ≡ t
unfolding bytes utf8
bytes_ascii [] h = refl
bytes_ascii (c ∷ t) h =
    let one : ltb c 0x80 ≡ true = ground (arith, h.0) in rw one (ap (◌∷◌ c) (bytes_ascii t h.1))

All-map : (P Q : ℕ → Type 0) (t : Text) → ((c : ℕ) → P c → Q c) → All P t → All Q t
All-map P Q [] f h = tt
All-map P Q (c ∷ t) f h = (f c h.0, All-map P Q t f h.1)

InLine-digit : (c : ℕ) → IsDigit c → InLine c
InLine-digit c h = (omega (arith, h), ground (arith, h))

abbrev IsPlain : ℕ → Type 0
IsPlain c = InLine c × (is_line_end c ≡ false)

abbrev is_plain : ℕ → Bool
is_plain c = ltb c 0x80 && (not (c == 10) && not (c == 13))

abbrev are_plain : Text → Bool
are_plain [] = true
are_plain (c ∷ t) = is_plain c && are_plain t

are_plain-IsPlain : (t : Text) → are_plain t ≡ true → All IsPlain t
are_plain-IsPlain [] h = tt
are_plain-IsPlain (c ∷ t) h = (
  ((ground (arith, h), ground (arith, h)), ground (arith, h)),
  are_plain-IsPlain t (both (is_plain c) (are_plain t) h),
)
  where
    both : (a b : Bool) → (a && b) ≡ true → b ≡ true
    both true b h = h
    both false b h = absurd (ground (arith, h))

length_header-IsPlain : (n : ℕ) → All IsPlain (length_header n)
length_header-IsPlain n =
    All-append IsPlain (codes "Content-Length: ") (decimal n)
      (are_plain-IsPlain (codes "Content-Length: ") refl)
      (All-map IsDigit IsPlain (decimal n) (λ c d. (InLine-digit c d, ground (arith, d)))
        (decimal-IsDigit n))

pub length_header-IsHeader : (n : ℕ) → IsHeader (length_header n)
length_header-IsHeader n = (
  All-map IsPlain InLine (length_header n) (λ c p. p.0) (length_header-IsPlain n),
  trim_line_plain (length_header n) (
      All-map IsPlain (λ c. is_line_end c ≡ false) (length_header n) (λ c p. p.1)
        (length_header-IsPlain n)),
  refl,
)

pub frame-block_before :
    (body rest : List ℕ)
    → frame body ++ rest ≡ block_before (length_header (length body) ∷ []) (body ++ rest)
unfolding frame block_before
frame-block_before body rest =
    let h = length_header (length body) in
    let ends = 13 ∷ 10 ∷ 13 ∷ 10 ∷ [] in
    let ascii : All IsAscii (h ++ ends) =
      All-append IsAscii h ends
        (All-map IsPlain IsAscii h (λ c p. p.0.0) (length_header-IsPlain (length body)))
        (omega arith, (omega arith, (omega arith, (omega arith, tt)))) in
    ap (λ (t : Text). (t ++ body) ++ rest) (bytes_ascii (h ++ ends) ascii)
    ∙ append_assoc (h ++ ends) body rest
    ∙ append_assoc h ends (body ++ rest)

IsSolid-digit : (c : ℕ) → IsDigit c → IsSolid c
unfolding is_whitespace
IsSolid-digit c h = ground (arith, h)

module _ (quoted : Text → Text) where
  pub header_length-length_header :
      (n : ℕ)
      → n ≤ u64_max
      → header_length quoted (split_once b':' (length_header n)) none ≡ some (inl n)
  unfolding header_length split_once is_content_length trim trim_start to_ascii_lowercase
      is_whitespace text_eq
  header_length-length_header n fits =
      let solid = All-map IsDigit IsSolid (decimal n) IsSolid-digit (decimal-IsDigit n) in
      let value = (trim_solid (decimal n) solid).1 in
      ap (λ (t : Text). some (length_or quoted (parse_u64 t) t)) value
      ∙ ap (λ (o : Option ℕ). some (length_or quoted o (decimal n))) (parse_u64-decimal n fits)
