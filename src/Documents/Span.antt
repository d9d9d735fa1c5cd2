-- ===== src/Documents/Span.antt =====
-- documents.rs: `line_span`, against the decomposition of a text around one of its lines.
use lsp.Base.{
  ℕ, suc, ◌+◌, ◌-◌, ◌<◌, ◌≡◌, refl, ap, ◌∙◌, Bool, true, false, Bool-cases, inl, inr, List, [], ◌∷◌,
  ◌++◌, append_assoc, arith, ltb, ltb→lt, lt→ltb, le→ltb, ◌&&◌, ◌==◌, if◌then◌else◌, length, get_or,
  get_elem?, get_or-append, get_elem?-append, min,
}
use lsp.Base.Text.{
  Char, Text, len_utf8, utf8, bytes, byte_len, length-bytes, length-utf8, len_utf8_pos,
  byte_len-nil, byte_len-cons, bytes-append, bytes-cons, byte_len-append,
}
use lsp.Types.{Doc}
use lsp.Documents.{after_line_feeds, starts_of, line_starts, line_limit, line_span}
use lsp.Documents.Lines.{
  line_feeds, lead, IsCoherent, line_starts-eq, length-after_line_feeds, get_or-line_starts,
  after_line_feeds-append, after_line_feeds-cons, starts_of-append,
}

-- empty, or begun by a line feed
abbrev pub IsBreak : Text → Type 0
IsBreak [] = Unit
IsBreak (c ∷ t) = c ≡ b'\n'

-- The text around its line `l`.
pub record LineOf (text : Text) (l : ℕ) : Type 0 where
  pub before : Text
  pub line : Text
  pub after : Text
  pub splits : text ≡ before ++ (line ++ after)
  pub index : line_feeds before ≡ l
  pub begins : lead before ≡ before
  pub one_line : line_feeds line ≡ 0
  pub ends : IsBreak after

-- a line's content without the carriage return that ends it
abbrev pub strip_cr : Text → Text
strip_cr [] = []
strip_cr (c ∷ []) = if c == b'\r' then [] else c ∷ []
strip_cr (c ∷ d ∷ t) = c ∷ strip_cr (d ∷ t)

abbrev ends_cr : Text → Bool
ends_cr [] = false
ends_cr (c ∷ []) = c == b'\r'
ends_cr (c ∷ d ∷ t) = ends_cr (d ∷ t)

get_or-utf8 :
    (c : Char) (rest : List ℕ)
    → (get_or (utf8 c ++ rest) (len_utf8 c - 1) 0 == b'\r') ≡ (c == b'\r')
unfolding utf8 len_utf8
get_or-utf8 c rest = ground arith

get_or_last :
    (c : Char) (t : Text) (rest : List ℕ)
    → (get_or (bytes (c ∷ t) ++ rest) (byte_len (c ∷ t) - 1) 0 == b'\r') ≡ ends_cr (c ∷ t)
get_or_last c [] rest =
    rw (bytes-cons c [], byte_len-cons c [], byte_len-nil, append_assoc (utf8 c) (bytes []) rest)
      (let e : len_utf8 c + 0 - 1 ≡ len_utf8 c - 1 = omega arith in
        rw e (get_or-utf8 c (bytes [] ++ rest)))
get_or_last c (d ∷ t) rest =
    let e : byte_len (c ∷ d ∷ t) - 1 ≡ length (utf8 c) + (byte_len (d ∷ t) - 1) =
      omega (arith, byte_len-cons c (d ∷ t), byte_len-cons d t, len_utf8_pos d, length-utf8 c) in
    rw
      (
        bytes-cons c (d ∷ t),
        append_assoc (utf8 c) (bytes (d ∷ t)) rest,
        e,
        get_or-append (utf8 c) (bytes (d ∷ t) ++ rest) (byte_len (d ∷ t) - 1) 0,
      )
      (get_or_last d t rest)

len_utf8_return : (c : Char) → c ≡ b'\r' → len_utf8 c ≡ 1
unfolding len_utf8
len_utf8_return c e = ground arith

byte_len-strip_cr :
    (t : Text) → byte_len (strip_cr t) ≡ (if ends_cr t then byte_len t - 1 else byte_len t)
byte_len-strip_cr [] = refl
byte_len-strip_cr (c ∷ []) = ground (arith, byte_len-cons c [], byte_len-nil, len_utf8_return c)
byte_len-strip_cr (c ∷ d ∷ t) = ground (
  arith,
  byte_len-cons c (d ∷ t),
  byte_len-cons c (strip_cr (d ∷ t)),
  byte_len-cons d t,
  len_utf8_pos d,
  byte_len-strip_cr (d ∷ t),
)

no_starts : (i : ℕ) (t : Text) → line_feeds t ≡ 0 → after_line_feeds i (bytes t) ≡ []
no_starts i t h = go (after_line_feeds i (bytes t)) (length-after_line_feeds i t ∙ h)
  where
    go : (xs : List ℕ) → length xs ≡ 0 → xs ≡ []
    go [] e = refl
    go (x ∷ xs) e = absurd (omega arith)

pub length-line_starts : (d : Doc) → IsCoherent d → length (line_starts d) ≡ suc (line_feeds d.text)
unfolding starts_of
length-line_starts d h = rw (line_starts-eq d h) (ap suc (length-after_line_feeds 0 d.text))

after_limit :
    (t : Text) (i : ℕ)
    → IsBreak t
    → line_limit (get_elem? (after_line_feeds i (bytes t)) 0) (i + byte_len t) ≡ i
unfolding line_limit
after_limit [] i h = unfold after_line_feeds bytes byte_len in omega arith
after_limit (c ∷ t) i h = rw (after_line_feeds-cons i c t, h) (omega arith)

ends_cr-nonempty : (t : Text) → ends_cr t ≡ true → 0 < byte_len t
ends_cr-nonempty [] h = cc
ends_cr-nonempty (c ∷ t) h = omega (arith, byte_len-cons c t, len_utf8_pos c)

module _ (d : Doc) (coherent : IsCoherent d) (l : ℕ) (at : LineOf d.text l) where
  next_start :
      get_elem? (line_starts d) (l + 1)
      ≡ get_elem? (after_line_feeds (byte_len at.before + byte_len at.line) (bytes at.after)) 0
  next_start =
      let all =
        line_starts-eq d coherent
        ∙ ap starts_of at.splits
        ∙ starts_of-append at.before (at.line ++ at.after) in
      let past : l + 1 ≡ suc (length (after_line_feeds 0 (bytes at.before)) + 0) =
        omega (arith, length-after_line_feeds 0 at.before, at.index) in
      rw (
        all,
        past,
        get_elem?-append (after_line_feeds 0 (bytes at.before))
            (after_line_feeds (byte_len at.before) (bytes (at.line ++ at.after))) 0,
        bytes-append at.line at.after,
        after_line_feeds-append (byte_len at.before) (bytes at.line) (bytes at.after),
        no_starts (byte_len at.before) at.line at.one_line,
        length-bytes at.line,
      )

  text_len : byte_len d.text ≡ byte_len at.before + byte_len at.line + byte_len at.after
  text_len = rw at.splits (
      omega
        (arith, byte_len-append at.before (at.line ++ at.after), byte_len-append at.line at.after))

  raw_end :
      line_limit (get_elem? (line_starts d) (l + 1)) (byte_len d.text)
      ≡ byte_len at.before + byte_len at.line
  raw_end =
      rw (next_start, text_len)
        (after_limit at.after (byte_len at.before + byte_len at.line) at.ends)

  last_byte :
      (0 < byte_len at.line)
      → (get_or (bytes d.text) (byte_len at.before + byte_len at.line - 1) 0 == b'\r')
        ≡ ends_cr at.line
  last_byte h =
      let e : byte_len at.before + byte_len at.line - 1
          ≡ length (bytes at.before) + (byte_len at.line - 1) =
        omega (arith, length-bytes at.before) in
      rw
        (
          at.splits,
          bytes-append at.before (at.line ++ at.after),
          bytes-append at.line at.after,
          e,
          get_or-append (bytes at.before) (bytes at.line ++ bytes at.after) (byte_len at.line - 1)
              0,
        )
        (last at.line h)
    where
      last :
          (t : Text)
          → 0 < byte_len t
          → (get_or (bytes t ++ bytes at.after) (byte_len t - 1) 0 == b'\r') ≡ ends_cr t
      last [] p = absurd (omega (arith, byte_len-nil))
      last (c ∷ t) p = get_or_last c t (bytes at.after)

  content :
      (if ltb (byte_len at.before) (byte_len at.before + byte_len at.line)
          && get_or (bytes d.text) (byte_len at.before + byte_len at.line - 1) 0 == b'\r'
        then byte_len at.before + byte_len at.line - 1
        else byte_len at.before + byte_len at.line)
      ≡ byte_len at.before + byte_len (strip_cr at.line)
  content = elim (Bool-cases (ltb 0 (byte_len at.line))) [
    | inl h ↦
        let filled = ltb→lt 0 (byte_len at.line) h in
        rw
          (
            last_byte filled,
            byte_len-strip_cr at.line,
            lt→ltb (byte_len at.before) (byte_len at.before + byte_len at.line) (omega arith),
          )
          (ground arith)
    | inr h ↦
        rw
          (
            byte_len-strip_cr at.line,
            le→ltb (byte_len at.before) (byte_len at.before + byte_len at.line) (ground arith),
          )
          (ground (arith, ends_cr-nonempty at.line))
  ]

  -- The span of a line is its content, a carriage return at its end left out.
  pub line_span-LineOf :
      (wanted : ℕ)
      → min wanted (line_feeds d.text) ≡ l
      → line_span d wanted ≡ (byte_len at.before, byte_len at.before + byte_len (strip_cr at.line))
  unfolding line_span
  line_span-LineOf wanted h =
      let count : length (line_starts d) - 1 ≡ line_feeds d.text =
        omega (arith, length-line_starts d coherent) in
      let first = get_or-line_starts d coherent at.before (at.line ++ at.after) at.splits in
      rw (count, h, ← at.index, first, at.begins, at.index, raw_end)
        (ap (λ (e : ℕ). (byte_len at.before, e)) content)
