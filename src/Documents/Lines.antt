-- ===== src/Documents/Lines.antt =====
-- documents.rs: what the line index holds. A text is read as the part up to its last line feed and
-- the line begun there.
use lsp.Base.{
  ℕ, suc, ◌+◌, ◌≤◌, ◌<◌, ◌≡◌, refl, ap, ◌∙◌, Bool-cases, inl, inr, List, [], ◌∷◌, ◌++◌, arith, ◌==◌,
  if◌then◌else◌, length, get_or-append_left, get_or, Option-cases, some,
}
use lsp.Base.Text.{
  Char, Text, len_utf8, utf8, bytes, byte_len, length-bytes, length-utf8, byte_len-nil,
  byte_len-cons, bytes-append,
}
use lsp.Types.{Doc}
use lsp.Documents.{after_line_feeds, starts_of, line_starts, line_of, partition_point}

abbrev pub line_feeds : Text → ℕ
line_feeds [] = 0
line_feeds (c ∷ t) = if c == b'\n' then suc (line_feeds t) else line_feeds t

-- all up to and with the last line feed
abbrev pub lead : Text → Text
lead [] = []
lead (c ∷ t) = if line_feeds (c ∷ t) == 0 then [] else c ∷ lead t

-- all behind the last line feed
abbrev pub last_line : Text → Text
last_line [] = []
last_line (c ∷ t) = if line_feeds (c ∷ t) == 0 then c ∷ t else last_line t

pub lead-last_line : (t : Text) → lead t ++ last_line t ≡ t
lead-last_line [] = refl
lead-last_line (c ∷ t) = elim (Bool-cases (line_feeds (c ∷ t) == 0)) [
  | inl h ↦ rw h
  | inr h ↦ rw h (ap (◌∷◌ c) (lead-last_line t))
]

-- the cached index, where there is one, is that of the text
abbrev pub IsCoherent : Doc → Type 0
IsCoherent d = (starts : List ℕ) → d.line_starts_cell ≡ some starts → starts ≡ starts_of d.text

pub line_starts-eq : (d : Doc) → IsCoherent d → line_starts d ≡ starts_of d.text
unfolding line_starts
line_starts-eq d h = elim (Option-cases d.line_starts_cell) [
  | inl e ↦ rw e
  | inr (s, e) ↦ rw e (h s e)
]

pub after_line_feeds-append :
    (i : ℕ) (xs ys : List ℕ)
    → after_line_feeds i (xs ++ ys) ≡ after_line_feeds i xs ++ after_line_feeds (i + length xs) ys
unfolding after_line_feeds
after_line_feeds-append i [] ys = let e : i + 0 ≡ i = omega arith in rw e
after_line_feeds-append i (x ∷ xs) ys =
    let e : i + suc (length xs) ≡ i + 1 + length xs = omega arith in
    rw e (ground (arith, after_line_feeds-append (i + 1) xs ys))

pub after_line_feeds-utf8 :
    (i : ℕ) (c : Char) → after_line_feeds i (utf8 c) ≡ (if c == b'\n' then (i + 1) ∷ [] else [])
unfolding after_line_feeds utf8
after_line_feeds-utf8 i c = ground arith

len_utf8_line_feed : (c : Char) → c ≡ b'\n' → len_utf8 c ≡ 1
unfolding len_utf8
len_utf8_line_feed c e = ground arith

pub after_line_feeds-cons :
    (i : ℕ) (c : Char) (t : Text)
    → after_line_feeds i (bytes (c ∷ t)) ≡ (
        if c == b'\n'
        then (i + 1) ∷ after_line_feeds (i + 1) (bytes t)
        else after_line_feeds (i + len_utf8 c) (bytes t))
unfolding bytes
after_line_feeds-cons i c t =
    rw (after_line_feeds-append i (utf8 c) (bytes t), after_line_feeds-utf8 i c, length-utf8 c)
      (ground (arith, len_utf8_line_feed c))

pub length-after_line_feeds :
    (i : ℕ) (t : Text) → length (after_line_feeds i (bytes t)) ≡ line_feeds t
length-after_line_feeds i [] = unfold after_line_feeds bytes in refl
length-after_line_feeds i (c ∷ t) =
    rw (after_line_feeds-cons i c t) (
      ground (arith, length-after_line_feeds (i + 1) t, length-after_line_feeds (i + len_utf8 c) t))

lead_without : (t : Text) → line_feeds t ≡ 0 → lead t ≡ []
lead_without [] h = refl
lead_without (c ∷ t) h = ground arith

-- the start of the line that `t` ends in, where the line it begins in starts at `k`
pub get_or-after_line_feeds :
    (k i : ℕ) (t : Text)
    → get_or (k ∷ after_line_feeds i (bytes t)) (line_feeds t) 0
      ≡ (if line_feeds t == 0 then k else i + byte_len (lead t))
get_or-after_line_feeds k i [] = refl
get_or-after_line_feeds k i (c ∷ t) =
    rw (after_line_feeds-cons i c t) (elim (Bool-cases (c == b'\n')) [
      | inl e ↦ rw e (
          ground (
            arith,
            byte_len-nil,
            byte_len-cons c (lead t),
            len_utf8_line_feed c,
            lead_without t,
            get_or-after_line_feeds (i + 1) (i + 1) t,
          ))
      | inr e ↦
          rw e
            (ground (arith, byte_len-cons c (lead t), get_or-after_line_feeds k (i + len_utf8 c) t))
    ])

partition_point-append :
    (o i : ℕ) (bs ys : List ℕ)
    → i + length bs ≤ o
    → partition_point o (after_line_feeds i bs ++ ys)
      ≡ length (after_line_feeds i bs) + partition_point o ys
unfolding after_line_feeds partition_point
partition_point-append o i [] ys h = omega arith
partition_point-append o i (b ∷ bs) ys h =
    ground (arith, partition_point-append o (i + 1) bs ys (omega arith))

partition_point-none :
    (o i : ℕ) (bs : List ℕ) → o ≤ i → partition_point o (after_line_feeds i bs) ≡ 0
unfolding after_line_feeds partition_point
partition_point-none o i [] h = refl
partition_point-none o i (b ∷ bs) h =
    ground (arith, partition_point-none o (i + 1) bs (omega arith))

pub starts_of-append :
    (a b : Text)
    → starts_of (a ++ b)
      ≡ 0 ∷ (after_line_feeds 0 (bytes a) ++ after_line_feeds (byte_len a) (bytes b))
unfolding starts_of
starts_of-append a b =
    let e : 0 + byte_len a ≡ byte_len a = omega arith in
    rw (bytes-append a b, after_line_feeds-append 0 (bytes a) (bytes b), length-bytes a, e)

module _ (d : Doc) (coherent : IsCoherent d) (a b : Text) (split : d.text ≡ a ++ b) where
  starts_split :
      line_starts d ≡ 0 ∷ (after_line_feeds 0 (bytes a) ++ after_line_feeds (byte_len a) (bytes b))
  starts_split = line_starts-eq d coherent ∙ ap starts_of split ∙ starts_of-append a b

  -- The line of an offset is the number of line feeds before it.
  pub line_of-line_feeds : line_of d (byte_len a) ≡ line_feeds a
  unfolding line_of
  line_of-line_feeds =
      let all =
        partition_point-append (byte_len a) 0 (bytes a) (after_line_feeds (byte_len a) (bytes b))
          (omega (arith, length-bytes a)) in
      let beyond = partition_point-none (byte_len a) (byte_len a) (bytes b) (omega arith) in
      rw starts_split
        (unfold partition_point in ground (arith, all, beyond, length-after_line_feeds 0 a))

  -- The index holds the start of that line.
  pub get_or-line_starts : get_or (line_starts d) (line_feeds a) 0 ≡ byte_len (lead a)
  get_or-line_starts =
      let here : line_feeds a < suc (length (after_line_feeds 0 (bytes a))) =
        omega (arith, length-after_line_feeds 0 a) in
      let first =
        get_or-append_left (0 ∷ after_line_feeds 0 (bytes a))
          (after_line_feeds (byte_len a) (bytes b)) (line_feeds a) 0 here in
      rw (starts_split, first)
        (ground (arith, get_or-after_line_feeds 0 0 a, lead_without a, byte_len-nil))
