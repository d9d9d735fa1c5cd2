-- ===== src/Base/Trim.antt =====
-- What the program uses of `str` around white space and ASCII case.
use Prim.Native.Nat.{◌+◌}
use mathlib.Core.Path.{◌≡◌, refl, ap, ◌∙◌}
use mathlib.Core.Bool.{Bool, false, ◌&&◌, ◌||◌}
use mathlib.Core.List.{[], ◌∷◌, reverse, reverse_aux, reverse-reverse}
use package.lsp.Base.Tests.{leb, ◌==◌, if◌then◌else◌}
use package.lsp.Base.Lists.{All}
use package.lsp.Base.Text.{Char, Text}

-- White_Space, as `str::trim` reads it
unfoldable pub is_whitespace : Char → Bool
is_whitespace c =
    (leb 0x9 c && leb c 0xD)
    || (c == 0x20
        || (c == 0x85
            || (c == 0xA0
                || (c == 0x1680
                    || ((leb 0x2000 c && leb c 0x200A)
                        || (c == 0x2028
                            || (c == 0x2029 || (c == 0x202F || (c == 0x205F || c == 0x3000)))))))))

unfoldable pub trim_start : Text → Text
unfolding is_whitespace
trim_start [] = []
trim_start (c ∷ t) = if is_whitespace c then trim_start t else c ∷ t

unfoldable pub trim : Text → Text
unfolding trim_start
trim t = reverse (trim_start (reverse (trim_start t)))

-- what stands before the first `c`
unfoldable pub before_first : Char → Text → Text
before_first c [] = []
before_first c (x ∷ t) = if x == c then [] else x ∷ before_first c t

unfoldable pub to_ascii_lowercase : Char → Char
to_ascii_lowercase c = if leb 0x41 c && leb c 0x5A then c + 32 else c

abbrev pub IsSolid : Char → Type 0
IsSolid c = is_whitespace c ≡ false

trim_start_solid : (t : Text) → All IsSolid t → trim_start t ≡ t
unfolding trim_start
trim_start_solid [] h = refl
trim_start_solid (c ∷ t) h = rw (h.0) refl

All-reverse_aux :
    (t done : Text) → All IsSolid t → All IsSolid done → All IsSolid (reverse_aux t done)
All-reverse_aux [] done h k = k
All-reverse_aux (c ∷ t) done h k = All-reverse_aux t (c ∷ done) h.1 (h.0, k)

-- A text without white space is its own trimming, behind a space too.
pub trim_solid : (t : Text) → All IsSolid t → (trim t ≡ t) × (trim (0x20 ∷ t) ≡ t)
unfolding trim trim_start is_whitespace
trim_solid t h =
    let there = trim_start_solid t h in
    let back = trim_start_solid (reverse t) (All-reverse_aux t [] h tt) in
    let whole = ap reverse (ap trim_start (ap reverse there) ∙ back) ∙ reverse-reverse t in
    (whole, whole)
