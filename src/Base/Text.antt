-- ===== src/Base/Text.antt =====
-- Texts: a Rust `str` is the list of its Unicode scalar values, and a byte offset into it counts the
-- UTF-8 lengths of the characters before it. What the program uses of `str` and `char` is here.
use Prim.Native.Nat.{ℕ, ◌+◌, ◌-◌, ◌/◌, ◌%◌, ◌≤◌, ◌<◌, min}
use Prim.Native.Char.{code}
use Prim.Native.String.{String}
use mathlib.Core.Path.{◌≡◌, refl}
use mathlib.Core.Logic.{◌↔◌}
use mathlib.Core.Bool.{Bool, true, false, ◌&&◌, ◌||◌}
use mathlib.Core.List.{List, [], ◌∷◌, ◌++◌, append_assoc}
use native.Mathlib.Omega.{arith}
use package.lsp.Base.Tests.{ltb, leb, ◌==◌, if◌then◌else◌}
use package.lsp.Base.Lists.{length, length-append}

-- a `char`, by its scalar value
abbrev pub Char : Type 0
Char = ℕ

abbrev pub Text : Type 0
Text = List ℕ

-- the text of a literal
abbrev pub codes : String → Text
codes String.[] = []
codes (String.◌∷◌ c s) = code c ∷ codes s

abbrev pub u32_max : ℕ
u32_max = 4294967295

abbrev pub u64_max : ℕ
u64_max = 18446744073709551615

abbrev pub usize_max : ℕ
usize_max = 18446744073709551615

-- usize::saturating_add
unfoldable pub saturating_add : ℕ → ℕ → ℕ
saturating_add a b = min (a + b) usize_max

-- char::len_utf8 and char::len_utf16
unfoldable pub len_utf8 : Char → ℕ
len_utf8 c = if ltb c 0x80 then 1 else if ltb c 0x800 then 2 else if ltb c 0x10000 then 3 else 4

unfoldable pub len_utf16 : Char → ℕ
len_utf16 c = if ltb c 0x10000 then 1 else 2

-- the bytes of one character
unfoldable pub utf8 : Char → List ℕ
utf8 c =
    if ltb c 0x80
    then c ∷ []
    else if ltb c 0x800
    then (0xC0 + c / 64) ∷ (0x80 + c % 64) ∷ []
    else if ltb c 0x10000
    then (0xE0 + c / 4096) ∷ (0x80 + c / 64 % 64) ∷ (0x80 + c % 64) ∷ []
    else (0xF0 + c / 262144) ∷ (0x80 + c / 4096 % 64) ∷ (0x80 + c / 64 % 64) ∷ (0x80 + c % 64) ∷ []

-- str::as_bytes
unfoldable pub bytes : Text → List ℕ
bytes [] = []
bytes (c ∷ t) = utf8 c ++ bytes t

-- str::len
unfoldable pub byte_len : Text → ℕ
byte_len [] = 0
byte_len (c ∷ t) = len_utf8 c + byte_len t

-- str::is_char_boundary
unfoldable pub is_char_boundary : Text → ℕ → Bool
is_char_boundary [] i = i == 0
is_char_boundary (c ∷ t) i = i == 0 || (leb (len_utf8 c) i && is_char_boundary t (i - len_utf8 c))

-- `&t[..i]` and `&t[i..]` at a character boundary `i`; elsewhere Rust panics
unfoldable pub take_bytes : ℕ → Text → Text
take_bytes i [] = []
take_bytes i (c ∷ t) = if i == 0 then [] else c ∷ take_bytes (i - len_utf8 c) t

unfoldable pub drop_bytes : ℕ → Text → Text
drop_bytes i [] = []
drop_bytes i (c ∷ t) = if i == 0 then c ∷ t else drop_bytes (i - len_utf8 c) t

-- `&t[a..b]`
unfoldable pub slice : Text → ℕ → ℕ → Text
slice t a b = take_bytes (b - a) (drop_bytes a t)

-- `==` of texts
unfoldable pub text_eq : Text → Text → Bool
text_eq [] [] = true
text_eq (c ∷ a) (d ∷ b) = c == d && text_eq a b
text_eq _ _ = false

-- `text.starts_with(prefix)`
unfoldable pub starts_with : Text → Text → Bool
starts_with [] t = true
starts_with (c ∷ p) [] = false
starts_with (c ∷ p) (d ∷ t) = c == d && starts_with p t

pub text_eq_iff : (a b : Text) → (text_eq a b ≡ true) ↔ (a ≡ b)
unfolding text_eq
text_eq_iff (c ∷ a) (d ∷ b) = ground (arith, text_eq_iff a b)
text_eq_iff _ _ = ground arith

pub text_eq_sound : (a b : Text) → text_eq a b ≡ true → a ≡ b
text_eq_sound a b h = (text_eq_iff a b).0 h

pub text_eq_reflexive : (a : Text) → text_eq a a ≡ true
text_eq_reflexive a = (text_eq_iff a a).1 refl

pub len_utf8_pos : (c : Char) → 0 < len_utf8 c
unfolding len_utf8
len_utf8_pos c = ground arith

pub len_utf16_pos : (c : Char) → 0 < len_utf16 c
unfolding len_utf16
len_utf16_pos c = ground arith

pub len_utf16-le-len_utf8 : (c : Char) → len_utf16 c ≤ len_utf8 c
unfolding len_utf8 len_utf16
len_utf16-le-len_utf8 c = ground arith

pub length-utf8 : (c : Char) → length (utf8 c) ≡ len_utf8 c
unfolding utf8 len_utf8
length-utf8 c = ground arith

pub length-bytes : (t : Text) → length (bytes t) ≡ byte_len t
unfolding bytes byte_len
length-bytes [] = refl
length-bytes (c ∷ t) =
    omega (arith, length-append (utf8 c) (bytes t), length-utf8 c, length-bytes t)

pub byte_len-append : (a b : Text) → byte_len (a ++ b) ≡ byte_len a + byte_len b
unfolding byte_len
byte_len-append [] b = omega arith
byte_len-append (c ∷ a) b = omega (arith, byte_len-append a b)

pub byte_len-nil : byte_len [] ≡ 0
unfolding byte_len
byte_len-nil = refl

pub byte_len-cons : (c : Char) (t : Text) → byte_len (c ∷ t) ≡ len_utf8 c + byte_len t
unfolding byte_len
byte_len-cons c t = refl

pub bytes-cons : (c : Char) (t : Text) → bytes (c ∷ t) ≡ utf8 c ++ bytes t
unfolding bytes
bytes-cons c t = refl

pub bytes-append : (a b : Text) → bytes (a ++ b) ≡ bytes a ++ bytes b
unfolding bytes
bytes-append [] b = refl
bytes-append (c ∷ a) b = rw (bytes-append a b, append_assoc)

-- The offsets that split a text are its character boundaries.
pub is_char_boundary-append : (a b : Text) → is_char_boundary (a ++ b) (byte_len a) ≡ true
unfolding is_char_boundary byte_len
is_char_boundary-append [] [] = refl
is_char_boundary-append [] (c ∷ b) = refl
is_char_boundary-append (c ∷ a) b =
    let e : len_utf8 c + byte_len a - len_utf8 c ≡ byte_len a = omega arith in
    ground (arith, e, is_char_boundary-append a b)

pub take_bytes-append : (a b : Text) → take_bytes (byte_len a) (a ++ b) ≡ a
unfolding take_bytes byte_len
take_bytes-append [] [] = refl
take_bytes-append [] (c ∷ b) = refl
take_bytes-append (c ∷ a) b =
    let e : len_utf8 c + byte_len a - len_utf8 c ≡ byte_len a = omega arith in
    let p = len_utf8_pos c in rw e (ground (arith, take_bytes-append a b))

pub drop_bytes-append : (a b : Text) → drop_bytes (byte_len a) (a ++ b) ≡ b
unfolding drop_bytes byte_len
drop_bytes-append [] [] = refl
drop_bytes-append [] (c ∷ b) = refl
drop_bytes-append (c ∷ a) b =
    let e : len_utf8 c + byte_len a - len_utf8 c ≡ byte_len a = omega arith in
    let p = len_utf8_pos c in rw e (ground (arith, drop_bytes-append a b))

-- A boundary splits its text, and its two slices are the parts.
pub boundary_splits :
    (t : Text) (i : ℕ)
    → is_char_boundary t i ≡ true
    → (t ≡ take_bytes i t ++ drop_bytes i t) × (byte_len (take_bytes i t) ≡ i)
unfolding is_char_boundary take_bytes drop_bytes byte_len
boundary_splits [] i h = (refl, ground arith)
boundary_splits (c ∷ t) i h = ground (arith, boundary_splits t (i - len_utf8 c))

pub is_char_boundary-le : (t : Text) (i : ℕ) → is_char_boundary t i ≡ true → i ≤ byte_len t
unfolding is_char_boundary byte_len
is_char_boundary-le [] i h = ground arith
is_char_boundary-le (c ∷ t) i h = ground (arith, is_char_boundary-le t (i - len_utf8 c))

pub slice-append : (a b c : Text) → slice (a ++ (b ++ c)) (byte_len a) (byte_len a + byte_len b) ≡ b
unfolding slice
slice-append a b c =
    let e : byte_len a + byte_len b - byte_len a ≡ byte_len b = omega arith in
    rw (drop_bytes-append a (b ++ c), e) (take_bytes-append b c)
