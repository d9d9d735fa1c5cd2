-- ===== src/Columns/Exact.antt =====
-- The cursors' columns are those of a walk back from each token.
use mathlib.Core.List.{map-append}
use lsp.Base.{
  ℕ, suc, ◌+◌, ◌-◌, ◌≤◌, ◌≡◌, refl, sym, ap, ap₂, ◌∙◌, List, [], ◌∷◌, ◌++◌, map, arith, Bool-cases,
  inl, inr, append_assoc, append-nil, min, ltb, lt→ltb, length, take, drop, sum, sum-append,
  length-append, length-take, take-append-drop,
}
use lsp.Base.Text.{
  Char, Text, len_utf8, byte_len, byte_len-cons, byte_len-nil, byte_len-append, take_bytes,
  drop_bytes, slice-append, take_bytes-append, drop_bytes-append, boundary_splits,
}
use lsp.Documents.Boundary.{down_to_boundary-boundary}
use lsp.Columns.{
  Cursor, Columns, new_columns, boundary_at_or_before, count_over, advance_to, step_chars,
  advance_chars, walk_back, column_at, column, columns_of,
}
use lsp.Columns.Prefixes.{sum-take-reverse, length-take-reverse, prefix_of_bytes, prefix_of_chars}

pub boundary_cuts :
    (text : Text) (si : ℕ)
    → (a : Text) × (b : Text) × (text ≡ a ++ b) × (boundary_at_or_before text si ≡ byte_len a)
unfolding boundary_at_or_before
boundary_cuts text si =
    let i = boundary_at_or_before text si in
    let cut = boundary_splits text i (down_to_boundary-boundary text (min si (byte_len text))) in
    (take_bytes i text, drop_bytes i text, cut.0, sym cut.1)

module _ (units : Char → ℕ) where
  -- the cursor behind a part of the text
  abbrev pub cursor_of : Text → Cursor
  cursor_of p = record { byte = byte_len p; chars = length p; units = sum (map units p) }

  abbrev pub IsAt : Text → Cursor → Type 0
  IsAt text c = (p : Text) × (q : Text) × (text ≡ p ++ q) × (c ≡ cursor_of p)

  -- both cursors stand in the text and hold what precedes them
  abbrev pub IsExact : Text → Columns → Type 0
  IsExact text cs = IsAt text cs.at × IsAt text cs.from

  units-append : (p m : Text) → sum (map units (p ++ m)) ≡ sum (map units p) + sum (map units m)
  units-append p m = rw (map-append units p m) (sum-append (map units p) (map units m))

  same_cursor :
      (b b' c c' u u' : ℕ)
      → b ≡ b'
      → c ≡ c'
      → u ≡ u'
      → ◌≡◌ {A = Cursor}
          (record { byte = b; chars = c; units = u })
          (record { byte = b'; chars = c'; units = u' })
  same_cursor b b' c c' u u' p q r = ground arith

  cursor_of-append :
      (p m : Text)
      → cursor_of (p ++ m) ≡ record {
        byte = byte_len p + byte_len m;
        chars = length p + length m;
        units = sum (map units p) + sum (map units m);
      }
  cursor_of-append p m =
      same_cursor _ _ _ _ _ _ (byte_len-append p m) (length-append p m) (units-append p m)

  count_over_lem :
      (m : Text) (c : Cursor)
      → count_over units m c
        ≡ record c { chars = c.chars + length m; units = c.units + sum (map units m) }
  unfolding count_over
  count_over_lem [] c = same_cursor _ _ _ _ _ _ refl (omega arith) (omega arith)
  count_over_lem (x ∷ m) c =
      count_over_lem m (record c { chars = c.chars + 1; units = c.units + units x })
      ∙ same_cursor _ _ _ _ _ _ refl (omega arith) (omega arith)

  advance_to-cursor_of :
      (text p m b : Text)
      → text ≡ p ++ (m ++ b)
      → advance_to units text (byte_len (p ++ m)) (cursor_of p) ≡ cursor_of (p ++ m)
  unfolding advance_to
  advance_to-cursor_of text p m b split =
      rw (split, byte_len-append p m, slice-append p m b, count_over_lem m (cursor_of p))
        (same_cursor _ _ _ _ _ _ refl (sym (length-append p m)) (sym (units-append p m)))

  step_chars-cursor_of :
      (p m r : Text)
      → step_chars units (length p + length m) (m ++ r) (cursor_of p) ≡ cursor_of (p ++ m)
  unfolding step_chars
  step_chars-cursor_of p [] [] = rw append-nil
  step_chars-cursor_of p [] (x ∷ r) = rw append-nil (ground arith)
  step_chars-cursor_of p (x ∷ m) r =
      let next : ◌≡◌ {A = Cursor}
          (record {
            byte = byte_len p + len_utf8 x;
            chars = length p + 1;
            units = sum (map units p) + units x;
          })
          (cursor_of (p ++ x ∷ [])) =
        same_cursor _ _ _ _ _ _
          (omega (arith, byte_len-append p (x ∷ []), byte_len-cons x [], byte_len-nil))
          (omega (arith, length-append p (x ∷ []))) (omega (arith, units-append p (x ∷ []))) in
      rw (lt→ltb (length p) (length p + suc (length m)) (omega arith)) (
        ap₂ (λ (n : ℕ) (c : Cursor). step_chars units n (m ++ r) c)
          (omega (arith, length-append p (x ∷ []))) next
        ∙ step_chars-cursor_of (p ++ x ∷ []) m r
        ∙ ap cursor_of (append_assoc p (x ∷ []) m))

  advance_chars-cursor_of :
      (text p m r : Text)
      → text ≡ p ++ (m ++ r)
      → advance_chars units text (length p + length m) (cursor_of p) ≡ cursor_of (p ++ m)
  unfolding advance_chars
  advance_chars-cursor_of text p m r split =
      rw (split, drop_bytes-append p (m ++ r)) (step_chars-cursor_of p m r)

  -- the units and the characters behind the first `n` characters of `a`
  walk_back-drop :
      (text a b : Text) (want : ℕ)
      → text ≡ a ++ b
      → walk_back units text (byte_len a) want
        ≡ (sum (map units (drop (length a - want) a)), length (drop (length a - want) a))
  unfolding walk_back
  walk_back-drop text a b want split =
      rw (split, take_bytes-append a b, sum-take-reverse units want a, length-take-reverse want a)

  window :
      (a : Text) (n : ℕ)
      → n ≤ length a
      → (sum (map units a) - sum (map units (take n a)) ≡ sum (map units (drop n a)))
        × (length a - length (take n a) ≡ length (drop n a))
  window a n h = (
    omega (
      arith,
      units-append (take n a) (drop n a),
      ap (λ (t : Text). sum (map units t)) (take-append-drop n a),
    ),
    omega (
      arith,
      length-append (take n a) (drop n a),
      ap (λ (t : Text). length t) (take-append-drop n a),
    ),
  )

  -- the cursor at the token moves to the token's start
  at_token :
      (text a b : Text) (c : Cursor)
      → text ≡ a ++ b
      → IsAt text c
      → c.byte ≤ byte_len a
      → advance_to units text (byte_len a) c ≡ cursor_of a
  at_token text a b c split (p, q, cut, e) h =
      let (m, more) =
        prefix_of_bytes p q a b (sym cut ∙ split) (omega (arith, ap (λ (k : Cursor). k.byte) e)) in
      rw (e, more)
        (advance_to-cursor_of text p m b
          (split ∙ ap (λ (t : Text). t ++ b) more ∙ append_assoc p m b))

  window_from :
      (text p m w r : Text) (n : ℕ) (c : Cursor)
      → text ≡ w ++ r
      → c ≡ cursor_of p
      → w ≡ p ++ m
      → n ≡ length p + length m
      → advance_chars units text n c ≡ cursor_of w
  window_from text p m w r n c split e more count =
      rw (e, more, count)
        (advance_chars-cursor_of text p m r
          (split ∙ ap (λ (t : Text). t ++ r) more ∙ append_assoc p m r))

  -- the cursor of the window moves to the window's start
  at_window :
      (text a b : Text) (n : ℕ) (c : Cursor)
      → text ≡ a ++ b
      → IsAt text c
      → c.chars ≤ n
      → n ≤ length a
      → advance_chars units text n c ≡ cursor_of (take n a)
  at_window text a b n c split (p, q, cut, e) h h' =
      let whole : text ≡ take n a ++ (drop n a ++ b) =
        split
        ∙ ap (λ (t : Text). t ++ b) (sym (take-append-drop n a))
        ∙ append_assoc (take n a) (drop n a) b in
      let (m, more) =
        prefix_of_chars p q (take n a) (drop n a ++ b) (sym cut ∙ whole)
          (omega (arith, length-take n a, ap (λ (k : Cursor). k.chars) e)) in
      window_from text p m (take n a) (drop n a ++ b) n c whole e more
        (omega (arith, length-take n a, length-append p m, ap (λ (t : Text). length t) more))

  IsAt-cursor_of : (text a b : Text) → text ≡ a ++ b → IsAt text (cursor_of a)
  IsAt-cursor_of text a b split = (a, b, split, refl)

  column_at-walk_back :
      (text : Text) (cs : Columns) (a b : Text) (want : ℕ)
      → text ≡ a ++ b
      → IsExact text cs
      → ((column_at units text cs (byte_len a) want).1 ≡ walk_back units text (byte_len a) want)
        × IsExact text (column_at units text cs (byte_len a) want).0
  unfolding column_at
  column_at-walk_back text cs a b want split exact =
      elim (Bool-cases (ltb (byte_len a) cs.at.byte)) [
        | inl h ↦ rw h (refl, exact)
        | inr h ↦
            let moved = at_token text a b cs.at split exact.0 (ground arith) in
            rw (h, moved)
              (elim (Bool-cases (ltb (length a - want) cs.from.chars)) [
                | inl h' ↦ rw h' (refl, (IsAt-cursor_of text a b split, exact.1))
                | inr h' ↦
                    let window_at =
                      at_window text a b (length a - want) cs.from split exact.1 (ground arith)
                        (omega arith) in
                    let size = window a (length a - want) (omega arith) in
                    rw (h', window_at, walk_back-drop text a b want split, size.0, size.1)
                      (
                        refl,
                        (
                          IsAt-cursor_of text a b split,
                          IsAt-cursor_of text (take (length a - want) a)
                              (drop (length a - want) a ++ b)
                              (split
                                ∙ ap (λ (t : Text). t ++ b)
                                    (sym (take-append-drop (length a - want) a))
                                ∙ append_assoc (take (length a - want) a) (drop (length a - want) a)
                                    b),
                        ),
                      )
              ])
      ]

  column-walk_back :
      (text : Text) (cs : Columns) (si ci : ℕ)
      → IsExact text cs
      → ((column units text cs si ci).1
          ≡ walk_back units text (boundary_at_or_before text si) (ci - 1))
        × IsExact text (column units text cs si ci).0
  unfolding column
  column-walk_back text cs si ci exact =
      let (a, b, split, bound) = boundary_cuts text si in
      rw bound (column_at-walk_back text cs a b (ci - 1) split exact)

  -- The columns that the two cursors find for any sequence of tokens, in order or not, are those
  -- of a walk back from each token over the characters just before it.
  pub columns_of-walk_back :
      (text : Text) (sites : List (ℕ × ℕ))
      → columns_of units text new_columns sites
        ≡ map
            (λ (site : ℕ × ℕ).
              walk_back units text (boundary_at_or_before text site.0) (site.1 - 1))
            sites
  unfolding columns_of byte_len
  columns_of-walk_back text sites =
      go sites new_columns (([], text, refl, refl), ([], text, refl, refl))
    where
      go :
          (sites : List (ℕ × ℕ)) (cs : Columns)
          → IsExact text cs
          → columns_of units text cs sites
            ≡ map
                (λ (site : ℕ × ℕ).
                  walk_back units text (boundary_at_or_before text site.0) (site.1 - 1))
                sites
      go [] cs exact = refl
      go ((si, ci) ∷ sites) cs exact =
          let step = column-walk_back text cs si ci exact in
          ap₂ (λ (x : ℕ × ℕ) (xs : List (ℕ × ℕ)). x ∷ xs) step.0
            (go sites (column units text cs si ci).0 step.1)
