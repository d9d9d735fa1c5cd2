-- ===== src/Registry/Escapes.antt =====
-- registry.rs: the path of a `file:` URI, against the escaping that makes such a URI.
use lsp.Base.{
  ℕ, ◌+◌, ◌-◌, ◌*◌, ◌/◌, ◌%◌, ◌<◌, ◌≡◌, refl, sym, ap, ◌∙◌, Bool, true, false, ◌&&◌, ◌||◌,
  Bool-cases, inl, inr, some, List, [], ◌∷◌, ◌++◌, ltb, leb, ◌==◌, if◌then◌else◌, arith, All,
}
use lsp.Base.Text.{Char, Text, codes, bytes, utf8}
use lsp.Base.Utf8.{prepend, IsScalar, from_utf8-bytes}
use lsp.Registry.Paths.{
  is_ascii_digit, is_ascii_alphabetic, is_hexdigit, hex_value, decode_escapes, decode_uri_component,
  drop_drive, fs_path_of, from_first, has_any, is_one_of, path_behind, line_terminators,
}

-- the bytes that a client leaves as they are
unfoldable pub is_plain : ℕ → Bool
is_plain b = is_ascii_digit b || (is_ascii_alphabetic b || (leb b'-' b && leb b b'/'))

unfoldable pub hex_digit : ℕ → ℕ
hex_digit n = if leb n 9 then n + b'0' else n - 10 + b'A'

-- every other byte as `%` and two digits
unfoldable pub escape : List ℕ → Text
unfolding is_plain hex_digit
escape [] = []
escape (b ∷ bs) =
    if is_plain b then b ∷ escape bs else b'%' ∷ hex_digit (b / 16) ∷ hex_digit (b % 16) ∷ escape bs

hex_digit_lem :
    (n : ℕ) → n < 16 → (is_hexdigit (hex_digit n) ≡ true) × (hex_value (hex_digit n) ≡ n)
unfolding is_hexdigit hex_value hex_digit
hex_digit_lem n h = (ground arith, ground arith)

plain-not-percent : (b : ℕ) → is_plain b ≡ true → (b == b'%') ≡ false
unfolding is_plain
plain-not-percent b h = ground arith

decode_escapes-literal :
    (b : ℕ) (rest : List ℕ)
    → (b == b'%') ≡ false
    → decode_escapes (b ∷ rest) ≡ prepend b (decode_escapes rest)
unfolding decode_escapes
decode_escapes-literal b [] h = rw h refl
decode_escapes-literal b (c ∷ []) h = rw h refl
decode_escapes-literal b (c ∷ d ∷ rest) h = rw h refl

decode_escapes-nil : decode_escapes [] ≡ some []
unfolding decode_escapes
decode_escapes-nil = refl

decode_escapes-escaped :
    (b : ℕ) (rest : List ℕ)
    → b < 256
    → decode_escapes (b'%' ∷ hex_digit (b / 16) ∷ hex_digit (b % 16) ∷ rest)
      ≡ prepend b (decode_escapes rest)
unfolding decode_escapes
decode_escapes-escaped b rest h =
    let (high, high_value) = hex_digit_lem (b / 16) (omega arith) in
    let (low, low_value) = hex_digit_lem (b % 16) (omega arith) in
    let value : b / 16 * 16 + b % 16 ≡ b = omega arith in
    rw (high, low, high_value, low_value, value) refl

decode_escapes-escape : (bs : List ℕ) → All (λ b. b < 256) bs → decode_escapes (escape bs) ≡ some bs
unfolding escape
decode_escapes-escape [] h = decode_escapes-nil
decode_escapes-escape (b ∷ bs) h = elim (Bool-cases (is_plain b)) [
  | inl e ↦ rw e (
      decode_escapes-literal b (escape bs) (plain-not-percent b e)
      ∙ ap (prepend b) (decode_escapes-escape bs h.1))
  | inr e ↦
      rw e
        (decode_escapes-escaped b (escape bs) h.0 ∙ ap (prepend b) (decode_escapes-escape bs h.1))
]

-- what an escaped text is made of
abbrev IsTame : ℕ → Type 0
IsTame c = (c < 0x80) × (is_one_of line_terminators c ≡ false)

hex_digit-IsTame : (n : ℕ) → n < 16 → IsTame (hex_digit n)
unfolding hex_digit is_one_of
hex_digit-IsTame n h = (ground arith, ground arith)

plain-IsTame : (b : ℕ) → is_plain b ≡ true → IsTame b
unfolding is_plain is_one_of
plain-IsTame b h = (ground arith, ground arith)

percent-IsTame : IsTame b'%'
unfolding is_one_of
percent-IsTame = (omega arith, refl)

escape-IsTame : (bs : List ℕ) → All (λ b. b < 256) bs → All IsTame (escape bs)
unfolding escape
escape-IsTame [] h = tt
escape-IsTame (b ∷ bs) h = elim (Bool-cases (is_plain b)) [
  | inl e ↦ rw e (plain-IsTame b e, escape-IsTame bs h.1)
  | inr e ↦
      let below = h.0 in
      rw e (
        percent-IsTame,
        (
          hex_digit-IsTame (b / 16) (omega arith),
          (hex_digit-IsTame (b % 16) (omega arith), escape-IsTame bs h.1),
        ),
      )
]

bytes_tame : (t : Text) → All IsTame t → bytes t ≡ t
unfolding bytes utf8
bytes_tame [] h = refl
bytes_tame (c ∷ t) h =
    let ascii : ltb c 0x80 ≡ true = (let lt = h.0.0 in ground arith) in
    rw ascii (ap (λ (u : Text). c ∷ u) (bytes_tame t h.1))

has_any_tame : (t : Text) → All IsTame t → has_any line_terminators t ≡ false
unfolding has_any
has_any_tame [] h = refl
has_any_tame (c ∷ t) h = rw (h.0.1) (has_any_tame t h.1)

All-bytes_append :
    (a b : List ℕ) → All (λ x. x < 256) a → All (λ x. x < 256) b → All (λ x. x < 256) (a ++ b)
All-bytes_append [] b ha hb = hb
All-bytes_append (x ∷ a) b ha hb = (ha.0, All-bytes_append a b ha.1 hb)

utf8-lt : (c : Char) → c < 0x110000 → All (λ x. x < 256) (utf8 c)
unfolding utf8
utf8-lt c h = elim (Bool-cases (ltb c 0x80)) [
  | inl a ↦ rw a (ground arith, tt)
  | inr a ↦ elim (Bool-cases (ltb c 0x800)) [
    | inl b ↦ rw (a, b) (ground arith, (omega arith, tt))
    | inr b ↦ elim (Bool-cases (ltb c 0x10000)) [
      | inl d ↦ rw (a, b, d) (ground arith, (omega arith, (omega arith, tt)))
      | inr d ↦ rw (a, b, d) (omega arith, (omega arith, (omega arith, (omega arith, tt))))
    ]
  ]
]

bytes-lt : (t : Text) → All IsScalar t → All (λ x. x < 256) (bytes t)
unfolding bytes
bytes-lt [] h = tt
bytes-lt (c ∷ t) h =
    All-bytes_append (utf8 c) (bytes t) (utf8-lt c (ground (arith, h.0))) (bytes-lt t h.1)

-- An escaped path is decoded to itself.
decode_uri_component-escape :
    (path : Text) → All IsScalar path → decode_uri_component (escape (bytes path)) ≡ some path
unfolding decode_uri_component
decode_uri_component-escape path scalars =
    let small = bytes-lt path scalars in
    rw
      (
        bytes_tame (escape (bytes path)) (escape-IsTame (bytes path) small),
        decode_escapes-escape (bytes path) small,
      )
      (from_utf8-bytes path scalars)

from_first-append :
    (c : Char) (host t : Text)
    → All (λ x. (x == c) ≡ false) host
    → from_first c (host ++ (c ∷ t)) ≡ some (c ∷ t)
unfolding from_first
from_first-append c [] t h = let same : (c == c) ≡ true = ground arith in rw same refl
from_first-append c (x ∷ host) t h = rw (h.0) (from_first-append c host t h.1)

slash_first : (path : Text) → escape (bytes (b'/' ∷ path)) ≡ b'/' ∷ escape (bytes path)
unfolding escape bytes utf8
slash_first path = refl

path_behind-escape :
    (path : Text)
    → All IsScalar path
    → path_behind (some (escape (bytes path))) ≡ some (drop_drive path)
path_behind-escape path scalars =
    rw
      (
        has_any_tame (escape (bytes path)) (escape-IsTame (bytes path) (bytes-lt path scalars)),
        decode_uri_component-escape path scalars,
      )
      refl

-- The path of a `file:` URI whose authority has no slash and whose path was percent-encoded byte
-- by byte, where the path's characters are Unicode scalar values, is that path again, less the
-- slash before a drive letter.
pub fs_path_of-escape :
    (host path : Text)
    → All (λ x. (x == b'/') ≡ false) host
    → All IsScalar path
    → fs_path_of (codes "file://" ++ (host ++ escape (bytes (b'/' ∷ path))))
      ≡ some (drop_drive (b'/' ∷ path))
unfolding fs_path_of
fs_path_of-escape host path plain_host scalars =
    let cut =
      ap (λ (t : Text). from_first b'/' (host ++ t)) (slash_first path)
      ∙ from_first-append b'/' host (escape (bytes path)) plain_host
      ∙ ap (λ (t : Text). some t) (sym (slash_first path)) in
    ap path_behind cut ∙ path_behind-escape (b'/' ∷ path) (inl (omega arith), scalars)
