-- ===== src/Columns/Prefixes.antt =====
-- Two prefixes of one text, and the characters at the end of a prefix.
use mathlib.Core.List.{
  reverse-append, reverse-cons, map-append, head-eq_of_cons-eq, tail-eq_of_cons-eq,
}
use lsp.Base.{
  ℕ, ◌-◌, ◌≤◌, ◌≡◌, refl, sym, ap, ap₂, ◌∙◌, List, [], ◌∷◌, ◌++◌, map, reverse, arith, Bool-cases,
  inl, inr, leb, length, take, drop, sum, sum-append, length-reverse, length-drop,
  take-append_length, take_all, take-append-drop,
}
use lsp.Base.Text.{Char, Text, len_utf8, byte_len, byte_len-cons, byte_len-nil, len_utf8_pos}

module _ {A : Type 0} where
  take-reverse : (w : ℕ) (a : List A) → take w (reverse a) ≡ reverse (drop (length a - w) a)
  take-reverse w a = elim (Bool-cases (leb w (length a))) [
    | inl h ↦ within (ground arith)
    | inr h ↦ beyond (ground arith)
  ]
    where
      whole : reverse a ≡ reverse (drop (length a - w) a) ++ reverse (take (length a - w) a)
      whole =
          ap reverse (sym (take-append-drop (length a - w) a))
          ∙ reverse-append (take (length a - w) a) (drop (length a - w) a)

      within : w ≤ length a → take w (reverse a) ≡ reverse (drop (length a - w) a)
      within h = rw whole (
          take-append_length (reverse (drop (length a - w) a)) (reverse (take (length a - w) a)) w
            (omega (arith, length-reverse (drop (length a - w) a), length-drop (length a - w) a)))

      beyond : length a ≤ w → take w (reverse a) ≡ reverse (drop (length a - w) a)
      beyond h =
          let e : length a - w ≡ 0 = omega arith in
          rw e (take_all w (reverse a) (omega (arith, length-reverse a)))

pub sum-reverse : (f : Char → ℕ) (t : Text) → sum (map f (reverse t)) ≡ sum (map f t)
sum-reverse f [] = refl
sum-reverse f (x ∷ t) =
    rw
      (
        reverse-cons x t,
        map-append f (reverse t) (x ∷ []),
        sum-append (map f (reverse t)) (f x ∷ []),
      )
      (omega (arith, sum-reverse f t))

-- the last `w` characters of `a`, backwards
pub sum-take-reverse :
    (f : Char → ℕ) (w : ℕ) (a : Text)
    → sum (map f (take w (reverse a))) ≡ sum (map f (drop (length a - w) a))
sum-take-reverse f w a = rw (take-reverse w a) (sum-reverse f (drop (length a - w) a))

pub length-take-reverse :
    (w : ℕ) (a : Text) → length (take w (reverse a)) ≡ length (drop (length a - w) a)
length-take-reverse w a = rw (take-reverse w a) (length-reverse (drop (length a - w) a))

-- Of two prefixes, the shorter in bytes begins the other.
pub prefix_of_bytes :
    (p q a b : Text) → p ++ q ≡ a ++ b → byte_len p ≤ byte_len a → (m : Text) × (a ≡ p ++ m)
prefix_of_bytes [] q a b e h = (a, refl)
prefix_of_bytes (c ∷ p) q [] b e h =
    absurd (omega (arith, byte_len-cons c p, byte_len-nil, len_utf8_pos c))
prefix_of_bytes (c ∷ p) q (d ∷ a) b e h =
    let same : c ≡ d = head-eq_of_cons-eq e in
    let (m, s) =
      prefix_of_bytes p q a b (tail-eq_of_cons-eq e)
        (omega (arith, byte_len-cons c p, byte_len-cons d a, ap len_utf8 same)) in
    (m, ap₂ (λ (x : ℕ) (y : Text). x ∷ y) (sym same) s)

-- Of two prefixes, the shorter in characters begins the other.
pub prefix_of_chars :
    (p q a b : Text) → p ++ q ≡ a ++ b → length p ≤ length a → (m : Text) × (a ≡ p ++ m)
prefix_of_chars [] q a b e h = (a, refl)
prefix_of_chars (c ∷ p) q [] b e h = absurd (omega arith)
prefix_of_chars (c ∷ p) q (d ∷ a) b e h =
    let (m, s) = prefix_of_chars p q a b (tail-eq_of_cons-eq e) (omega arith) in
    (m, ap₂ (λ (x : ℕ) (y : Text). x ∷ y) (sym (head-eq_of_cons-eq e)) s)
