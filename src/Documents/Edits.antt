-- ===== src/Documents/Edits.antt =====
-- documents.rs: where `offset_at` lands, and what a `didChange` edit does to the text and the line index.
use mathlib.Core.Option.{some-injective}
use lsp.Base.{
  ℕ, zero, suc, ◌+◌, ◌≤◌, ◌<◌, leb, ◌≡◌, refl, sym, ap, ap₂, subst, ◌∙◌, Bool-cases, inl, inr, ◌⊎◌,
  true, false, Option, none, some, List, [], ◌∷◌, ◌++◌, append_assoc, arith, ◌==◌, min,
}
use lsp.Base.Text.{
  Text, len_utf8, byte_len, byte_len-append, byte_len-cons, byte_len-nil, is_char_boundary,
  is_char_boundary-append, take_bytes, drop_bytes, take_bytes-append, drop_bytes-append, slice,
  slice-append,
}
use lsp.Types.{PositionEncoding, ℤ, Doc, Position, Range}
use lsp.Documents.{
  measure_in, units_in, walk_units, line_starts, line_span, offset_at, starts_of, update,
  fill_line_starts, apply_change, apply_each, apply_changes,
}
use lsp.Documents.Lines.{line_feeds, IsCoherent, line_starts-eq}
use lsp.Documents.Span.{LineOf, strip_cr, line_span-LineOf}
use lsp.Documents.Positions.{
  measure_in-nil, measure_in-cons, walk_units-prefix, offset_at-LineOf, stripped, strip_cr-stripped,
}
use lsp.Documents.RoundTrip.{line_around}

-- a part of the text with `l` line feeds, and the rest
abbrev Cut : ℕ → Text → Type 0
Cut l t = (a : Text) × (b : Text) × (t ≡ a ++ b) × (line_feeds a ≡ l)

Cut-behind_feed : (l : ℕ) (c : ℕ) (t : Text) → (c == b'\n') ≡ true → Cut l t → Cut (suc l) (c ∷ t)
Cut-behind_feed l c t e (a, b, split, n) = (c ∷ a, b, ap (◌∷◌ c) split, rw e (ap suc n))

Cut-behind_other : (l : ℕ) (c : ℕ) (t : Text) → (c == b'\n') ≡ false → Cut l t → Cut l (c ∷ t)
Cut-behind_other l c t e (a, b, split, n) = (c ∷ a, b, ap (◌∷◌ c) split, rw e n)

Cut-at : (l : ℕ) (t : Text) → l ≤ line_feeds t → Cut l t
Cut-at zero t h = ([], t, refl, refl)
Cut-at (suc l) [] h = absurd (omega arith)
Cut-at (suc l) (c ∷ t) h = elim (Bool-cases (c == b'\n')) [
  | inl e ↦ Cut-behind_feed l c t e (Cut-at l t (ground arith))
  | inr e ↦ Cut-behind_other (suc l) c t e (Cut-at (suc l) t (ground arith))
]

-- every line number up to the last has its line
line_numbered : (text : Text) (l : ℕ) → l ≤ line_feeds text → LineOf text l
line_numbered text l h =
    let (a, b, split, n) = Cut-at l text h in rw n at (line_around text a b split)

-- Where an offset lies: between the parts of the text, in the named line's span, behind as many units as were
-- asked for or at the end of the span.
pub record Lands (d : Doc) (p : Position) : Type 0 where
  pub front : Text
  pub back : Text
  pub splits : d.text ≡ front ++ back
  pub offset : offset_at d p ≡ byte_len front
  pub from_start : (line_span d p.line).0 ≤ offset_at d p
  pub to_end : offset_at d p ≤ (line_span d p.line).1
  pub reached :
      (p.character ≤ measure_in d.encoding (slice d.text (line_span d p.line).0 (offset_at d p)))
      ⊎ (offset_at d p ≡ (line_span d p.line).1)

module _ (d : Doc) (p : Position) {l : ℕ} (at : LineOf d.text l) (w v : Text) where
  parts :
      strip_cr at.line ≡ w ++ v → d.text ≡ at.before ++ (w ++ (v ++ (stripped at.line ++ at.after)))
  parts split =
      at.splits
      ∙ ap (λ (t : Text). at.before ++ (t ++ at.after)) (sym (strip_cr-stripped at.line))
      ∙ ap (λ (t : Text). at.before ++ ((t ++ stripped at.line) ++ at.after)) split
      ∙ ap (λ (t : Text). at.before ++ t)
          (append_assoc (w ++ v) (stripped at.line) at.after
            ∙ append_assoc w v (stripped at.line ++ at.after))

  lands :
      strip_cr at.line ≡ w ++ v
      → line_span d p.line ≡ (byte_len at.before, byte_len at.before + byte_len (strip_cr at.line))
      → offset_at d p ≡ byte_len at.before + byte_len w
      → (p.character ≤ 0 + measure_in d.encoding w) ⊎ (v ≡ [])
      → Lands d p
  lands split span landed stop =
      let lengths : byte_len (strip_cr at.line) ≡ byte_len w + byte_len v =
        ap byte_len split ∙ byte_len-append w v in
      record {
        front = at.before ++ w;
        back = v ++ (stripped at.line ++ at.after);
        splits = parts split ∙ sym (append_assoc at.before w (v ++ (stripped at.line ++ at.after)));
        offset = landed ∙ sym (byte_len-append at.before w);
        from_start = rw (span, landed) (omega arith);
        to_end = rw (span, landed) (omega arith);
        reached = elim stop [
          | inl h ↦ inl (
              rw
                (
                  span,
                  landed,
                  parts split,
                  slice-append at.before w (v ++ (stripped at.line ++ at.after)),
                )
                (omega arith))
          | inr e ↦ inr (rw (span, landed) (omega (arith, ap byte_len e, byte_len-nil)))
        ];
      }

-- The walk over a line has not passed where fewer units stand before.
walk_units_before :
    (enc : PositionEncoding) (want units at : ℕ) (x y : Text)
    → at + byte_len x < walk_units enc want units at (x ++ y)
    → units + measure_in enc x < want
unfolding walk_units
walk_units_before enc want units at [] [] h = absurd (omega (arith, h))
walk_units_before enc want units at [] (c ∷ y) h = elim (Bool-cases (leb want units)) [
  | inl e ↦ absurd (omega (arith, rw e at h))
  | inr e ↦ rw (measure_in-nil enc) (ground arith)
]
walk_units_before enc want units at (c ∷ x) y h = elim (Bool-cases (leb want units)) [
  | inl e ↦ absurd (omega (arith, rw e at h))
  | inr e ↦
      let rest =
        walk_units_before enc want (units + units_in enc c) (at + len_utf8 c) x y
          (omega (arith, rw e at h, byte_len-cons c x)) in
      rw (measure_in-cons enc c x) (omega (arith, rest))
]

module _ (d : Doc) (coherent : IsCoherent d) where
  pub offset_at-Lands : (p : Position) → Lands d p
  offset_at-Lands p =
      let l = min p.line (line_feeds d.text) in
      let at = line_numbered d.text l (omega arith) in
      let span = line_span-LineOf d coherent l at p.line refl in
      let (w, v, split, walked, stop) =
        walk_units-prefix d.encoding p.character 0 (byte_len at.before) (strip_cr at.line) in
      lands d p at w v split span (offset_at-LineOf d coherent at p refl ∙ walked) stop

  -- With a coherent line index, `offset_at` answers a character boundary in the span of the
  -- position's line; the line's text before it measures at least the character asked for, or it is
  -- the end of the span; and it is at or before the end of every beginning of the line that
  -- measures at least that character.
  pub offset_at_on_line :
      (p : Position) (x y : Text)
      → slice d.text (line_span d p.line).0 (line_span d p.line).1 ≡ x ++ y
      → (is_char_boundary d.text (offset_at d p) ≡ true)
        × ((line_span d p.line).0 ≤ offset_at d p)
        × (offset_at d p ≤ (line_span d p.line).1)
        × ((p.character
              ≤ measure_in d.encoding (slice d.text (line_span d p.line).0 (offset_at d p)))
            ⊎ (offset_at d p ≡ (line_span d p.line).1))
        × ((offset_at d p ≤ (line_span d p.line).0 + byte_len x)
            ⊎ (measure_in d.encoding x < p.character))
  unfolding offset_at
  offset_at_on_line p x y split =
      let at = offset_at-Lands p in
      (
        subst (λ (i : ℕ). is_char_boundary d.text i ≡ true) (sym at.offset)
            (subst (λ (t : Text). is_char_boundary t (byte_len at.front) ≡ true) (sym at.splits)
              (is_char_boundary-append at.front at.back)),
        at.from_start,
        at.to_end,
        at.reached,
        stops,
      )
    where
      start : ℕ
      start = (line_span d p.line).0

      walked : Text → ℕ
      walked t = walk_units d.encoding p.character 0 start t

      stops : (offset_at d p ≤ start + byte_len x) ⊎ (measure_in d.encoding x < p.character)
      stops = elim (Bool-cases (leb (offset_at d p) (start + byte_len x))) [
        | inl e ↦ inl (ground arith)
        | inr e ↦
            let passed : start + byte_len x < walked (slice d.text start (line_span d p.line).1) =
              ground arith in
            let short =
              walk_units_before d.encoding p.character 0 start x y
                (subst (λ (t : Text). start + byte_len x < walked t) split passed) in
            inr (omega (arith, short))
      ]

-- An edit of a range, in a document with a coherent line index, leaves the text before the range's
-- start, the new text and the text behind its end; both offsets are character boundaries, and the
-- version stays.
pub apply_change_splices :
    (d : Doc) (range : Range) (new : Text)
    → IsCoherent d
    → (a : Text) × (a' : Text) × (b' : Text) × (b : Text) × (d.text ≡ a ++ a')
      × (offset_at d range.start ≡ byte_len a)
      × (d.text ≡ b' ++ b)
      × (offset_at d range.end ≡ byte_len b')
      × ((apply_change d (some range) new).text ≡ a ++ (new ++ b))
      × ((apply_change d (some range) new).version ≡ d.version)
unfolding apply_change update
apply_change_splices d range new coherent =
    let s = offset_at-Lands d coherent range.start in
    let e = offset_at-Lands d coherent range.end in
    (
      s.front,
      s.back,
      e.front,
      e.back,
      s.splits,
      s.offset,
      e.splits,
      e.offset,
      ap₂ (λ (x y : Text). x ++ (new ++ y))
          (taken s.front s.back (offset_at d range.start) s.splits s.offset)
          (dropped e.front e.back (offset_at d range.end) e.splits e.offset),
      refl,
    )
  where
    taken : (a b : Text) (i : ℕ) → d.text ≡ a ++ b → i ≡ byte_len a → take_bytes i d.text ≡ a
    taken a b i split at = rw (split, at) (take_bytes-append a b)

    dropped : (a b : Text) (i : ℕ) → d.text ≡ a ++ b → i ≡ byte_len a → drop_bytes i d.text ≡ b
    dropped a b i split at = rw (split, at) (drop_bytes-append a b)

apply_change-IsCoherent :
    (d : Doc) (range : Option Range) (new : Text) → IsCoherent (apply_change d range new)
unfolding apply_change update
apply_change-IsCoherent d none new = λ starts h. cc
apply_change-IsCoherent d (some range) new = λ starts h. cc

apply_each-IsCoherent :
    (d : Doc) (changes : List (Option Range × Text))
    → IsCoherent d
    → IsCoherent (apply_each d changes)
unfolding apply_each
apply_each-IsCoherent d [] h = h
apply_each-IsCoherent d ((range, new) ∷ changes) h =
    apply_each-IsCoherent (apply_change d range new) changes (apply_change-IsCoherent d range new)

-- Whether the index was read before it makes no difference to an edit.
apply_change-fill :
    (d : Doc) (range : Option Range) (new : Text)
    → apply_change (fill_line_starts d) range new ≡ apply_change d range new
unfolding apply_change update fill_line_starts offset_at line_span line_starts
apply_change-fill d none new = refl
apply_change-fill d (some range) new = refl

text-fill :
    (d : Doc) (changes : List (Option Range × Text))
    → (apply_each (fill_line_starts d) changes).text ≡ (apply_each d changes).text
unfolding apply_each
text-fill d [] = unfold fill_line_starts in refl
text-fill d ((range, new) ∷ changes) =
    ap (λ (e : Doc). (apply_each e changes).text) (apply_change-fill d range new)

-- Reading the line index keeps it that of the text, and a notification's edits never leave the
-- index of a text that is gone, whether it was read between them or not.
pub line_index-IsCoherent :
    (d : Doc) (changes : List (Option Range × Text)) (version : ℤ)
    → IsCoherent d
    → IsCoherent (apply_changes d changes version)
      × IsCoherent (fill_line_starts d)
      × (line_starts (apply_changes (fill_line_starts d) changes version)
          ≡ starts_of (apply_changes d changes version).text)
unfolding apply_changes fill_line_starts
line_index-IsCoherent d changes version coherent = (
  after,
  filled,
  line_starts-eq (apply_changes (fill_line_starts d) changes version)
        (apply_each-IsCoherent (fill_line_starts d) changes filled)
      ∙ ap starts_of (text-fill d changes),
)
  where
    after : IsCoherent (apply_changes d changes version)
    after = apply_each-IsCoherent d changes coherent

    filled : IsCoherent (fill_line_starts d)
    filled = λ starts h. sym (some-injective _ _ h) ∙ line_starts-eq d coherent
