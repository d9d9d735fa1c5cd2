-- ===== src/Documents/RoundTrip.antt =====
-- documents.rs: `offset_at` after `position_at`.
use lsp.Base.{
  ℕ, ◌+◌, ◌≤◌, ◌≡◌, refl, sym, ap, ap₂, ◌∙◌, false, Bool-cases, inl, inr, [], ◌∷◌, ◌++◌,
  append_assoc, arith, ◌==◌, if◌then◌else◌, min,
}
use lsp.Base.Text.{Char, Text, u32_max, byte_len, len_utf8_pos, byte_len-cons, byte_len-append}
use lsp.Types.{Doc}
use lsp.Documents.{wire, measure_in, line_span, boundary, position_at, offset_at}
use lsp.Documents.Boundary.{boundary_splits_text}
use lsp.Documents.Lines.{line_feeds, lead, last_line, lead-last_line, IsCoherent}
use lsp.Documents.Span.{IsBreak, LineOf, line_span-LineOf}
use lsp.Documents.Positions.{
  position_behind, position_at-append, measure_in-le, offset_at-LineOf, walk_units-strip_cr,
}

abbrev first_line : Text → Text
first_line [] = []
first_line (c ∷ t) = if c == b'\n' then [] else c ∷ first_line t

abbrev after_line : Text → Text
after_line [] = []
after_line (c ∷ t) = if c == b'\n' then c ∷ t else after_line t

first-after_line : (t : Text) → first_line t ++ after_line t ≡ t
first-after_line [] = refl
first-after_line (c ∷ t) = elim (Bool-cases (c == b'\n')) [
  | inl e ↦ rw e
  | inr e ↦ rw e (ap (◌∷◌ c) (first-after_line t))
]

line_feeds-first_line : (t : Text) → line_feeds (first_line t) ≡ 0
line_feeds-first_line [] = refl
line_feeds-first_line (c ∷ t) = elim (Bool-cases (c == b'\n')) [
  | inl e ↦ rw e
  | inr e ↦ rw e (rw e (line_feeds-first_line t))
]

after_line-IsBreak : (t : Text) → IsBreak (after_line t)
after_line-IsBreak [] = tt
after_line-IsBreak (c ∷ t) = elim (Bool-cases (c == b'\n')) [
  | inl e ↦ rw e (ground arith)
  | inr e ↦ rw e (after_line-IsBreak t)
]

pub line_feeds-append : (a b : Text) → line_feeds (a ++ b) ≡ line_feeds a + line_feeds b
line_feeds-append [] b = omega arith
line_feeds-append (c ∷ a) b = ground (arith, line_feeds-append a b)

line_feeds-last_line : (t : Text) → line_feeds (last_line t) ≡ 0
line_feeds-last_line [] = refl
line_feeds-last_line (c ∷ t) = elim (Bool-cases (line_feeds (c ∷ t) == 0)) [
  | inl h ↦ rw h (ground arith)
  | inr h ↦ rw h (line_feeds-last_line t)
]

line_feeds-lead : (t : Text) → line_feeds (lead t) ≡ line_feeds t
line_feeds-lead t = omega (
  arith,
  ap line_feeds (lead-last_line t),
  line_feeds-append (lead t) (last_line t),
  line_feeds-last_line t,
)

lead-cons :
    (c : Char) (t : Text)
    → (line_feeds (c ∷ t) == 0) ≡ false
    → lead (lead t) ≡ lead t
    → lead (c ∷ lead t) ≡ c ∷ lead t
lead-cons c t h ih = ground (arith, line_feeds-lead t)

lead-lead : (t : Text) → lead (lead t) ≡ lead t
lead-lead [] = refl
lead-lead (c ∷ t) = elim (Bool-cases (line_feeds (c ∷ t) == 0)) [
  | inl h ↦ rw h
  | inr h ↦ rw h (lead-cons c t h (lead-lead t))
]

pub line_feeds-le : (t : Text) → line_feeds t ≤ byte_len t
line_feeds-le [] = omega arith
line_feeds-le (c ∷ t) = ground (arith, byte_len-cons c t, len_utf8_pos c, line_feeds-le t)

pub wire-le : (n : ℕ) → n ≤ u32_max → wire n ≡ n
unfolding wire
wire-le n h = ground arith

-- the line that an offset splits
pub line_around : (text a b : Text) → text ≡ a ++ b → LineOf text (line_feeds a)
line_around text a b split = record {
  before = lead a;
  line = last_line a ++ first_line b;
  after = after_line b;
  splits =
      split
      ∙ ap₂ (λ x y. x ++ y) (sym (lead-last_line a)) (sym (first-after_line b))
      ∙ append_assoc (lead a) (last_line a) (first_line b ++ after_line b)
      ∙ ap (λ t. lead a ++ t) (sym (append_assoc (last_line a) (first_line b) (after_line b)));
  index = line_feeds-lead a;
  begins = lead-lead a;
  one_line = omega (
    arith,
    line_feeds-append (last_line a) (first_line b),
    line_feeds-last_line a,
    line_feeds-first_line b,
  );
  ends = after_line-IsBreak b;
}

module _ (d : Doc) (coherent : IsCoherent d) where
  offset_at-position_behind :
      (a b : Text)
      → d.text ≡ a ++ b
      → byte_len d.text ≤ u32_max
      → offset_at d (position_behind d.encoding a)
        ≡ min (byte_len a) (line_span d (position_behind d.encoding a).line).1
  unfolding line_around
  offset_at-position_behind a b split fits =
      let around = line_around d.text a b split in
      let whole : byte_len d.text ≡ byte_len a + byte_len b = rw split (byte_len-append a b) in
      let parts : byte_len (lead a) + byte_len (last_line a) ≡ byte_len a =
        omega (arith, byte_len-append (lead a) (last_line a), ap byte_len (lead-last_line a)) in
      let feeds : line_feeds d.text ≡ line_feeds a + line_feeds b =
        rw split (line_feeds-append a b) in
      let line_fits : wire (line_feeds a) ≡ line_feeds a =
        wire-le (line_feeds a) (omega (arith, line_feeds-le a)) in
      let character_fits : wire (measure_in d.encoding (last_line a))
          ≡ 0 + measure_in d.encoding (last_line a) =
        wire-le (measure_in d.encoding (last_line a))
          (omega (arith, measure_in-le d.encoding (last_line a)))
        ∙ omega arith in
      let inside : min (wire (line_feeds a)) (line_feeds d.text) ≡ line_feeds a =
        rw line_fits (omega arith) in
      rw (
        offset_at-LineOf d coherent around (position_behind d.encoding a) inside,
        line_span-LineOf d coherent (line_feeds a) around (wire (line_feeds a)) inside,
        character_fits,
        walk_units-strip_cr d.encoding 0 (byte_len (lead a)) (last_line a) (first_line b),
        parts,
      )

  -- A byte offset taken to a wire position and back, in a document of at most 2^32 - 1 bytes with
  -- a coherent line index, is the character boundary at or before the offset, or the end of its
  -- line's content where that comes first.
  pub offset_at-position_at :
      (offset : ℕ)
      → byte_len d.text ≤ u32_max
      → offset_at d (position_at d offset)
        ≡ min (boundary d offset) (line_span d (position_at d offset).line).1
  offset_at-position_at offset fits =
      let (a, b, split, at) = boundary_splits_text d offset in
      rw (position_at-append d offset a b coherent split at, at)
        (offset_at-position_behind a b split fits)
