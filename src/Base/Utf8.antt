-- ===== src/Base/Utf8.antt =====
-- String::from_utf8: the decoder of UTF-8, a byte at a time, and its round trip with `bytes`.
use Prim.Native.Nat.{ℕ, zero, suc, ◌+◌, ◌-◌, ◌*◌, ◌/◌, ◌≤◌, ◌<◌}
use mathlib.Core.Path.{◌≡◌, refl, ap, ◌∙◌}
use mathlib.Core.Logic.{◌⊎◌, inl, inr}
use mathlib.Core.Bool.{Bool, true, false, ◌&&◌, ◌||◌}
use mathlib.Core.Option.{Option, none, some}
use mathlib.Core.List.{List, [], ◌∷◌, ◌++◌}
use native.Mathlib.Omega.{arith}
use package.lsp.Base.Tests.{ltb, leb, ◌==◌, if◌then◌else◌, Bool-cases}
use package.lsp.Base.Lists.{All}
use package.lsp.Base.Text.{Char, Text, utf8, bytes}

-- a Unicode scalar value, at least `low`
unfoldable pub is_scalar_from : ℕ → ℕ → Bool
is_scalar_from low c = leb low c && (ltb c 0xD800 || (leb 0xE000 c && ltb c 0x110000))

abbrev pub IsScalar : Char → Type 0
IsScalar c = (c < 0xD800) ⊎ ((0xE000 ≤ c) × (c < 0x110000))

abbrev pub prepend : ℕ → Option (List ℕ) → Option (List ℕ)
prepend x none = none
prepend x (some xs) = some (x ∷ xs)

-- `more` continuation bytes of a character are to come: `found` is its value so far, and one below `low` has a
-- shorter form
unfoldable pub decode_utf8 : ℕ → ℕ → ℕ → List ℕ → Option Text
decode_utf8 zero found low [] = some []
decode_utf8 (suc more) found low [] = none
decode_utf8 zero found low (b ∷ bs) =
    let one = prepend b (decode_utf8 0 0 0 bs) in
    let two = decode_utf8 1 (b - 0xC0) 0x80 bs in
    let three = decode_utf8 2 (b - 0xE0) 0x800 bs in
    let four = decode_utf8 3 (b - 0xF0) 0x10000 bs in
    if ltb b 0x80
    then one
    else if ltb b 0xC0
    then none
    else if ltb b 0xE0
    then two
    else if ltb b 0xF0
    then three
    else if ltb b 0xF8
    then four
    else none
decode_utf8 (suc more) found low (b ∷ bs) =
    let value = found * 64 + (b - 0x80) in
    let last = prepend value (decode_utf8 0 0 0 bs) in
    let further = decode_utf8 more value low bs in
    if leb 0x80 b && ltb b 0xC0
    then (if more == 0 then (if is_scalar_from low value then last else none) else further)
    else none

unfoldable pub from_utf8 : List ℕ → Option Text
unfolding decode_utf8 is_scalar_from
from_utf8 bs = decode_utf8 0 0 0 bs

module _ (found low b : ℕ) (bs : List ℕ) where
  decode_one : b < 0x80 → decode_utf8 0 found low (b ∷ bs) ≡ prepend b (decode_utf8 0 0 0 bs)
  unfolding decode_utf8
  decode_one h = ground arith

  decode_two :
      0xC0 ≤ b → b < 0xE0 → decode_utf8 0 found low (b ∷ bs) ≡ decode_utf8 1 (b - 0xC0) 0x80 bs
  unfolding decode_utf8
  decode_two h k = ground arith

  decode_three :
      0xE0 ≤ b → b < 0xF0 → decode_utf8 0 found low (b ∷ bs) ≡ decode_utf8 2 (b - 0xE0) 0x800 bs
  unfolding decode_utf8
  decode_three h k = ground arith

  decode_four :
      0xF0 ≤ b → b < 0xF8 → decode_utf8 0 found low (b ∷ bs) ≡ decode_utf8 3 (b - 0xF0) 0x10000 bs
  unfolding decode_utf8
  decode_four h k = ground arith

  decode_further :
      (more : ℕ)
      → 0x80 ≤ b
      → b < 0xC0
      → decode_utf8 (suc (suc more)) found low (b ∷ bs)
        ≡ decode_utf8 (suc more) (found * 64 + (b - 0x80)) low bs
  unfolding decode_utf8
  decode_further more h k =
      let lo : leb 0x80 b ≡ true = ground arith in
      let hi : ltb b 0xC0 ≡ true = ground arith in
      let left : (suc more == 0) ≡ false = ground arith in rw (lo, hi, left) refl

  decode_last :
      (c : Char)
      → 0x80 ≤ b
      → b < 0xC0
      → found * 64 + (b - 0x80) ≡ c
      → IsScalar c
      → low ≤ c
      → decode_utf8 1 found low (b ∷ bs) ≡ prepend c (decode_utf8 0 0 0 bs)
  unfolding decode_utf8 is_scalar_from
  decode_last c h k e scalar least = rw e (ground (arith, scalar))

decode_utf8-utf8 :
    (c : Char) (rest : List ℕ)
    → IsScalar c
    → decode_utf8 0 0 0 (utf8 c ++ rest) ≡ prepend c (decode_utf8 0 0 0 rest)
unfolding utf8
decode_utf8-utf8 c rest scalar = elim (Bool-cases (ltb c 0x80)) [
  | inl a ↦ rw a (decode_one 0 0 c rest (ground arith))
  | inr a ↦ elim (Bool-cases (ltb c 0x800)) [
    | inl b ↦
        rw (a, b)
          (decode_two 0 0 (0xC0 + c / 64) _ (omega arith) (ground arith)
            ∙ decode_last _ _ _ _ c (omega arith) (omega arith) (omega arith) scalar (ground arith))
    | inr b ↦ elim (Bool-cases (ltb c 0x10000)) [
      | inl d ↦
          rw (a, b, d)
            (decode_three 0 0 (0xE0 + c / 4096) _ (omega arith) (ground arith)
              ∙ decode_further _ _ _ _ _ (omega arith) (omega arith)
              ∙ decode_last _ _ _ _ c (omega arith) (omega arith) (omega arith) scalar
                  (ground arith))
      | inr d ↦
          rw (a, b, d)
            (decode_four 0 0 (0xF0 + c / 262144) _ (omega arith) (ground (arith, scalar))
              ∙ decode_further _ _ _ _ _ (omega arith) (omega arith)
              ∙ decode_further _ _ _ _ _ (omega arith) (omega arith)
              ∙ decode_last _ _ _ _ c (omega arith) (omega arith) (omega arith) scalar
                  (ground arith))
    ]
  ]
]

-- Text read back from its bytes.
pub from_utf8-bytes : (t : Text) → All IsScalar t → from_utf8 (bytes t) ≡ some t
unfolding from_utf8 bytes
from_utf8-bytes [] h = decode_nil
  where
    decode_nil : decode_utf8 0 0 0 [] ≡ some []
    decode_nil = refl
from_utf8-bytes (c ∷ t) h =
    decode_utf8-utf8 c (bytes t) h.0 ∙ ap (prepend c) (from_utf8-bytes t h.1)
