-- ===== src/Documents/Positions.antt =====
-- documents.rs: `position_at` and `offset_at` without the line index: the line feeds before an offset,
-- the measure of the line behind the last of them, and a walk along a line's content.
use lsp.Base.{
  ℕ, ◌+◌, ◌≤◌, ◌<◌, ◌≡◌, refl, sym, ap, ◌∙◌, Bool-cases, inl, inr, ◌⊎◌, [], ◌∷◌, ◌++◌, append_assoc,
  arith, leb, lt→leb, ◌==◌, if◌then◌else◌, min,
}
use lsp.Base.Text.{
  Char, Text, len_utf8, byte_len, len_utf8_pos, len_utf16_pos, len_utf16-le-len_utf8, byte_len-nil,
  byte_len-cons, byte_len-append, slice, slice-append,
}
use lsp.Types.{Doc, Position, PositionEncoding, utf16_units, utf8_bytes}
use lsp.Documents.{
  wire, units_in, utf16_len, measure_in, boundary, position_at, offset_at, walk_units,
}
use lsp.Documents.Lines.{
  line_feeds, lead, last_line, lead-last_line, IsCoherent, line_of-line_feeds, get_or-line_starts,
}
use lsp.Documents.Span.{LineOf, strip_cr, line_span-LineOf}

pub units_in_pos : (enc : PositionEncoding) (c : Char) → 0 < units_in enc c
unfolding units_in
units_in_pos utf16_units c = len_utf16_pos c
units_in_pos utf8_bytes c = len_utf8_pos c

pub units_in-le : (enc : PositionEncoding) (c : Char) → units_in enc c ≤ len_utf8 c
unfolding units_in
units_in-le utf16_units c = len_utf16-le-len_utf8 c
units_in-le utf8_bytes c = omega arith

pub measure_in-nil : (enc : PositionEncoding) → measure_in enc [] ≡ 0
unfolding measure_in utf16_len byte_len
measure_in-nil utf16_units = refl
measure_in-nil utf8_bytes = refl

pub measure_in-cons :
    (enc : PositionEncoding) (c : Char) (t : Text)
    → measure_in enc (c ∷ t) ≡ units_in enc c + measure_in enc t
unfolding measure_in utf16_len byte_len units_in
measure_in-cons utf16_units c t = refl
measure_in-cons utf8_bytes c t = refl

pub measure_in-le : (enc : PositionEncoding) (t : Text) → measure_in enc t ≤ byte_len t
measure_in-le enc [] = omega (arith, measure_in-nil enc)
measure_in-le enc (c ∷ t) =
    omega
      (arith, measure_in-cons enc c t, byte_len-cons c t, units_in-le enc c, measure_in-le enc t)

slice_behind : (p w b : Text) → slice ((p ++ w) ++ b) (byte_len p) (byte_len (p ++ w)) ≡ w
slice_behind p w b = rw (append_assoc p w b, byte_len-append p w) (slice-append p w b)

slice-last_line : (a b : Text) → slice (a ++ b) (byte_len (lead a)) (byte_len a) ≡ last_line a
slice-last_line a b = rw (lead-last_line a) at (slice_behind (lead a) (last_line a) b)

-- the position of the offset between `a` and what follows it, before it goes on the wire
abbrev pub position_behind : PositionEncoding → Text → Position
position_behind enc a = record {
  line = wire (line_feeds a);
  character = wire (measure_in enc (last_line a));
}

-- With a coherent line index and the clamped offset behind a prefix of the text, `position_at`
-- counts the prefix's line feeds and measures what stands behind the last of them.
pub position_at-append :
    (d : Doc) (offset : ℕ) (a b : Text)
    → IsCoherent d
    → d.text ≡ a ++ b
    → boundary d offset ≡ byte_len a
    → position_at d offset ≡ position_behind d.encoding a
unfolding position_at
position_at-append d offset a b coherent split at = rw (
  at,
  line_of-line_feeds d coherent a b split,
  get_or-line_starts d coherent a b split,
  split,
  slice-last_line a b,
)

-- What the walk of `offset_at` stops behind: the characters before the first boundary at which `want`
-- units are reached, or all of them.
pub walk_units-prefix :
    (enc : PositionEncoding) (want units at : ℕ) (t : Text)
    → (w : Text) × (v : Text) × (t ≡ w ++ v)
      × (walk_units enc want units at t ≡ at + byte_len w)
      × ((want ≤ units + measure_in enc w) ⊎ (v ≡ []))
unfolding walk_units
walk_units-prefix enc want units at [] = ([], [], refl, omega (arith, byte_len-nil), inr refl)
walk_units-prefix enc want units at (c ∷ t) = elim (Bool-cases (leb want units)) [
  | inl h ↦ (
    [],
    c ∷ t,
    refl,
    rw h (omega (arith, byte_len-nil)),
    inl (ground (arith, measure_in-nil enc)),
  )
  | inr h ↦
      let (w, v, split, walked, stop) =
        walk_units-prefix enc want (units + units_in enc c) (at + len_utf8 c) t in
      (
        c ∷ w,
        v,
        ap (◌∷◌ c) split,
        rw (h, walked) (omega (arith, byte_len-cons c w)),
        (elim stop [ inl p ↦ inl (omega (arith, measure_in-cons enc c w)) | inr p ↦ inr p ]),
      )
]

walk_units_reached :
    (enc : PositionEncoding) (want at : ℕ) (t : Text) → walk_units enc want want at t ≡ at
unfolding walk_units
walk_units_reached enc want at [] = refl
walk_units_reached enc want at (c ∷ t) = ground arith

walk_units_step :
    (enc : PositionEncoding) (want units at : ℕ) (c : Char) (t : Text)
    → units < want
    → walk_units enc want units at (c ∷ t)
      ≡ walk_units enc want (units + units_in enc c) (at + len_utf8 c) t
unfolding walk_units
walk_units_step enc want units at c t h = rw (lt→leb want units h)

reassociate :
    (enc : PositionEncoding) (units : ℕ) (c : Char) (w : Text)
    → units + measure_in enc (c ∷ w) ≡ units + units_in enc c + measure_in enc w
reassociate enc units c w = omega (arith, measure_in-cons enc c w)

walk_units_past :
    (enc : PositionEncoding) (units at : ℕ) (c : Char) (w t : Text)
    → walk_units enc (units + measure_in enc (c ∷ w)) units at (c ∷ t)
      ≡ walk_units enc
          (units + units_in enc c + measure_in enc w)
          (units + units_in enc c)
          (at + len_utf8 c)
          t
walk_units_past enc units at c w t = rw (reassociate enc units c w) (
    walk_units_step enc (units + units_in enc c + measure_in enc w) units at c t
      (omega (arith, units_in_pos enc c)))

-- A walk for the measure of `w` along the content of a line that begins with `w` goes to the end of `w`,
-- or to the end of the content where `w` holds the carriage return.
pub walk_units-strip_cr :
    (enc : PositionEncoding) (units at : ℕ) (w v : Text)
    → walk_units enc (units + measure_in enc w) units at (strip_cr (w ++ v))
      ≡ min (at + byte_len w) (at + byte_len (strip_cr (w ++ v)))
walk_units-strip_cr enc units at [] v =
    let e : units + measure_in enc [] ≡ units = omega (arith, measure_in-nil enc) in
    rw (e, walk_units_reached enc units at (strip_cr v)) (omega (arith, byte_len-nil))
walk_units-strip_cr enc units at (c ∷ []) [] = elim (Bool-cases (c == b'\r')) [
  | inl h ↦ rw h (unfold walk_units in omega (arith, byte_len-nil))
  | inr h ↦
      rw (h, walk_units_past enc units at c [] [], byte_len-cons c [], byte_len-nil)
        (unfold walk_units in omega arith)
]
walk_units-strip_cr enc units at (c ∷ []) (d ∷ v) =
    rw
      (
        walk_units_past enc units at c [] (strip_cr (d ∷ v)),
        walk_units-strip_cr enc (units + units_in enc c) (at + len_utf8 c) [] (d ∷ v),
        byte_len-cons c [],
        byte_len-cons c (strip_cr (d ∷ v)),
      )
      (omega (arith, byte_len-nil))
walk_units-strip_cr enc units at (c ∷ d ∷ w) v =
    rw
      (
        walk_units_past enc units at c (d ∷ w) (strip_cr (d ∷ (w ++ v))),
        walk_units-strip_cr enc (units + units_in enc c) (at + len_utf8 c) (d ∷ w) v,
        byte_len-cons c (d ∷ w),
        byte_len-cons c (strip_cr (d ∷ (w ++ v))),
      )
      (omega arith)

-- the carriage return that a line's content leaves out
abbrev pub stripped : Text → Text
stripped [] = []
stripped (c ∷ []) = if c == b'\r' then c ∷ [] else []
stripped (c ∷ d ∷ t) = stripped (d ∷ t)

pub strip_cr-stripped : (t : Text) → strip_cr t ++ stripped t ≡ t
strip_cr-stripped [] = refl
strip_cr-stripped (c ∷ []) = elim (Bool-cases (c == b'\r')) [ inl e ↦ rw e | inr e ↦ rw e ]
strip_cr-stripped (c ∷ d ∷ t) = ap (◌∷◌ c) (strip_cr-stripped (d ∷ t))

module _ (d : Doc) (coherent : IsCoherent d) {l : ℕ} (at : LineOf d.text l) where
  slice_content :
      slice d.text (byte_len at.before) (byte_len at.before + byte_len (strip_cr at.line))
      ≡ strip_cr at.line
  slice_content =
      let split : d.text ≡ at.before ++ (strip_cr at.line ++ (stripped at.line ++ at.after)) =
        at.splits
        ∙ ap (λ (t : Text). at.before ++ (t ++ at.after)) (sym (strip_cr-stripped at.line))
        ∙ ap (λ (t : Text). at.before ++ t)
            (append_assoc (strip_cr at.line) (stripped at.line) at.after) in
      rw split (slice-append at.before (strip_cr at.line) (stripped at.line ++ at.after))

  -- `offset_at` walks the content of the line that the position names.
  pub offset_at-LineOf :
      (p : Position)
      → min p.line (line_feeds d.text) ≡ l
      → offset_at d p ≡ walk_units d.encoding p.character 0 (byte_len at.before) (strip_cr at.line)
  unfolding offset_at
  offset_at-LineOf p h = rw (line_span-LineOf d coherent l at p.line h) (rw slice_content)
