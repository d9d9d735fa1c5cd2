-- ===== src/Documents/Boundary.antt =====
-- documents.rs: `boundary`, the last character boundary at or before an offset.
use lsp.Base.{sym, ℕ, zero, suc, [], ◌≤◌, ◌≡◌, ◌++◌, true, min, arith, Bool-cases, inl, inr}
use lsp.Base.Text.{
  Text, byte_len, is_char_boundary, take_bytes, drop_bytes, boundary_splits, is_char_boundary-le,
  is_char_boundary-append,
}
use lsp.Types.{Doc}
use lsp.Documents.{down_to_boundary, boundary}

zero-boundary : (t : Text) → is_char_boundary t 0 ≡ true
unfolding byte_len
zero-boundary t = is_char_boundary-append [] t

pub down_to_boundary-boundary :
    (t : Text) (n : ℕ) → is_char_boundary t (down_to_boundary t n) ≡ true
unfolding down_to_boundary
down_to_boundary-boundary t zero = zero-boundary t
down_to_boundary-boundary t (suc n) = elim (Bool-cases (is_char_boundary t (suc n))) [
  | inl h ↦ rw h h
  | inr h ↦ rw h (down_to_boundary-boundary t n)
]

pub down_to_boundary-le : (t : Text) (n : ℕ) → down_to_boundary t n ≤ n
unfolding down_to_boundary
down_to_boundary-le t zero = omega arith
down_to_boundary-le t (suc n) = ground (arith, down_to_boundary-le t n)

pub le-down_to_boundary :
    (t : Text) (n j : ℕ) → is_char_boundary t j ≡ true → j ≤ n → j ≤ down_to_boundary t n
unfolding down_to_boundary
le-down_to_boundary t zero j b h = h
le-down_to_boundary t (suc n) j b h = ground (arith, le-down_to_boundary t n j b)

-- The clamped offset is a character boundary of the text and at most the offset asked for, and no
-- boundary of the text lies between the two.
pub boundary_greatest :
    (d : Doc) (offset : ℕ)
    → (is_char_boundary d.text (boundary d offset) ≡ true)
      × (boundary d offset ≤ offset)
      × ((j : ℕ) → is_char_boundary d.text j ≡ true → j ≤ offset → j ≤ boundary d offset)
unfolding boundary
boundary_greatest d offset = (
  down_to_boundary-boundary d.text (min offset (byte_len d.text)),
  omega (arith, down_to_boundary-le d.text (min offset (byte_len d.text))),
  λ j b h.
      le-down_to_boundary d.text (min offset (byte_len d.text)) j b
        (omega (arith, is_char_boundary-le d.text j b)),
)

pub boundary-append :
    (d : Doc) (a b : Text) → d.text ≡ a ++ b → boundary d (byte_len a) ≡ byte_len a
unfolding boundary
boundary-append d a b e =
    let at : is_char_boundary d.text (byte_len a) ≡ true = rw e (is_char_boundary-append a b) in
    let fits = is_char_boundary-le d.text (byte_len a) at in
    let m : min (byte_len a) (byte_len d.text) ≡ byte_len a = omega arith in
    rw m (
      omega (
        arith,
        down_to_boundary-le d.text (byte_len a),
        le-down_to_boundary d.text (byte_len a) (byte_len a) at (omega arith),
      ))

-- Every clamped offset splits the text.
pub boundary_splits_text :
    (d : Doc) (offset : ℕ)
    → (a : Text) × (b : Text) × (d.text ≡ a ++ b) × (boundary d offset ≡ byte_len a)
boundary_splits_text d offset =
    let cut = boundary_splits d.text (boundary d offset) (boundary_greatest d offset).0 in
    (take_bytes (boundary d offset) d.text, drop_bytes (boundary d offset) d.text, cut.0, sym cut.1)
