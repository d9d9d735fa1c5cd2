-- ===== src/Trace/Anchor.antt =====
-- trace.rs: `anchor` puts a token back on its text, once.
use lsp.Base.{
  ℕ, ◌+◌, ◌-◌, ◌<◌, ◌≡◌, refl, sym, ap, ◌∙◌, ◌&&◌, true, false, none, some, [], ◌∷◌, ◌++◌,
  append_assoc, if◌then◌else◌, leb, ◌==◌, Bool, Bool-cases, inl, inr, arith,
}
use lsp.Base.Text.{
  Text, len_utf8, byte_len, byte_len-append, is_char_boundary, is_char_boundary-append, take_bytes,
  drop_bytes, slice, slice-append, boundary_splits, text_eq, text_eq_sound, text_eq_reflexive,
}
use lsp.Types.{TokenPoint}
use lsp.Trace.{anchor, get_range, holds_at, checked_add, checked_sub}

-- the text has `src` at byte `at`
pub record Stands (text : Text) (at : ℕ) (src : Text) : Type 0 where
  pub front : Text
  pub back : Text
  pub splits : text ≡ front ++ (src ++ back)
  pub starts : byte_len front ≡ at

parts_join : (i : ℕ) (t : Text) → take_bytes i t ++ drop_bytes i t ≡ t
unfolding take_bytes drop_bytes
parts_join i [] = refl
parts_join i (c ∷ t) = elim (Bool-cases (i == 0)) [
  | inl e ↦ rw e refl
  | inr e ↦ rw e (ap (◌∷◌ c) (parts_join (i - len_utf8 c) t))
]

middle_holds : (a b c : Bool) → a && (b && c) ≡ true → b ≡ true
middle_holds true true c h = refl
middle_holds true false c h = h
middle_holds false b c h = cc

-- what the range test finds
range_found :
    (text : Text) (a b : ℕ) (src : Text) (test : Bool)
    → (leb a b && (is_char_boundary text a && is_char_boundary text b)) ≡ test
    → elim (if test then some (slice text a b) else none) [
      | none ↦ false
      | some part ↦ text_eq part src
    ]
      ≡ true
    → Stands text a src
unfolding slice
range_found text a b src false e h = cc
range_found text a b src true e h =
    let (split, start) = boundary_splits text a (middle_holds (leb a b) _ _ e) in
    let rest = drop_bytes (b - a) (drop_bytes a text) in
    record {
      front = take_bytes a text;
      back = rest;
      splits =
          split
          ∙ ap (λ (t : Text). take_bytes a text ++ t)
              (sym (parts_join (b - a) (drop_bytes a text))
                ∙ ap (λ (t : Text). t ++ rest) (text_eq_sound _ src h));
      starts = start;
    }

holds_at-Stands :
    (text : Text) (a b : ℕ) (src : Text) → holds_at text a b src ≡ true → Stands text a src
unfolding holds_at get_range
holds_at-Stands text a b src h = range_found text a b src _ refl h

ends_at_boundary :
    (x y z : Text) → is_char_boundary (x ++ (y ++ z)) (byte_len x + byte_len y) ≡ true
ends_at_boundary x y z =
    rw (sym (byte_len-append x y), sym (append_assoc x y z)) (is_char_boundary-append (x ++ y) z)

in_range :
    (b : Bool) (part src : Text)
    → b ≡ true
    → part ≡ src
    → elim (if b then some part else none) [ none ↦ false | some found ↦ text_eq found src ] ≡ true
in_range true part src h e = rw e (text_eq_reflexive src)
in_range false part src h e = cc

each_holds : (a b c : Bool) → a ≡ true → b ≡ true → c ≡ true → a && (b && c) ≡ true
each_holds a b c h k l = rw (h, k, l) refl

-- the range test of a text that is split
range_splits :
    (x y z : Text) → holds_at (x ++ (y ++ z)) (byte_len x) (byte_len x + byte_len y) y ≡ true
unfolding holds_at get_range
range_splits x y z =
    in_range _ _ y
      (each_holds (leb (byte_len x) (byte_len x + byte_len y)) _ _ (ground arith)
        (is_char_boundary-append x (y ++ z)) (ends_at_boundary x y z))
      (slice-append x y z)

Stands-holds_at :
    (text : Text) (a : ℕ) (src : Text)
    → Stands text a src
    → holds_at text a (a + byte_len src) src ≡ true
Stands-holds_at text a src s = rw (s.splits, sym s.starts) (range_splits s.front src s.back)

-- What a moved token is: its text is not empty and has the length that was recorded, it stands just before the place
-- that was reported and not at it, and the token keeps all but its place.
pub record IsMoved (event : TokenPoint) (text : Text) (t : TokenPoint) : Type 0 where
  pub stands : Stands text t.si event.src
  pub ends : t.si + byte_len event.src ≡ event.si
  pub not_reported : Stands text event.si event.src → ⊥
  pub not_empty : 0 < byte_len event.src
  pub recorded : event.len ≡ byte_len event.src
  pub name : t.name ≡ event.name
  pub len : t.len ≡ event.len
  pub src : t.src ≡ event.src

moved_back :
    (event t : TokenPoint) (text : Text)
    → anchor event text ≡ some t
    → (holds_at text t.si event.si event.src ≡ true)
      × (holds_at text event.si (event.si + byte_len event.src) event.src ≡ false)
      × (t.si + byte_len event.src ≡ event.si)
      × (0 < byte_len event.src)
      × (event.len ≡ byte_len event.src)
      × (t.name ≡ event.name)
      × (t.len ≡ event.len)
      × (t.src ≡ event.src)
unfolding anchor checked_add checked_sub
moved_back event t text h = (
  ground arith,
  ground arith,
  ground arith,
  ground arith,
  ground arith,
  ground arith,
  ground arith,
  ground arith,
)

pub anchor-IsMoved :
    (event t : TokenPoint) (text : Text) → anchor event text ≡ some t → IsMoved event text t
anchor-IsMoved event t text h =
    let (there, absent, ends, not_empty, recorded, name, len, src) = moved_back event t text h in
    record {
      stands = holds_at-Stands text t.si event.si event.src there;
      ends = ends;
      not_reported = λ s. apart (sym (Stands-holds_at text event.si event.src s) ∙ absent);
      not_empty = not_empty;
      recorded = recorded;
      name = name;
      len = len;
      src = src;
    }
  where
    apart : true ≡ false → ⊥
    apart e = cc

-- A token whose text stands where it says is left alone.
pub anchor_in_place :
    (event : TokenPoint) (text : Text)
    → holds_at text event.si (event.si + byte_len event.src) event.src ≡ true
    → anchor event text ≡ none
unfolding anchor checked_add checked_sub
anchor_in_place event text h = ground arith

-- A token that `anchor` moves has a text that is not empty, of the length that was recorded, which
-- stands just before the offset that was reported and not at it; the token moves there, keeps its
-- name, length and text, and is not moved again.
pub anchor_once :
    (event t : TokenPoint) (text : Text)
    → anchor event text ≡ some t
    → IsMoved event text t × (anchor t text ≡ none)
anchor_once event t text h = (moved, again moved)
  where
    moved : IsMoved event text t
    moved = anchor-IsMoved event t text h

    again : IsMoved event text t → anchor t text ≡ none
    again m = anchor_in_place t text (rw m.src (Stands-holds_at text t.si event.src m.stands))
