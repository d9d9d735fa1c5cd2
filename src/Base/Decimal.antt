-- ===== src/Base/Decimal.antt =====
-- The decimal text of a number, as `{}` writes it, and `str::parse::<u64>`, with their round trip.
use Prim.Native.Nat.{ℕ, zero, suc, ◌+◌, ◌-◌, ◌*◌, ◌/◌, ◌%◌, ◌≤◌, ◌<◌}
use mathlib.Core.Path.{◌≡◌, refl, ap, ◌∙◌}
use mathlib.Core.Logic.{inl, inr}
use mathlib.Core.Bool.{Bool, true, false, ◌&&◌}
use mathlib.Core.Option.{Option, none, some}
use mathlib.Core.List.{[], ◌∷◌, ◌++◌}
use native.Mathlib.Omega.{arith}
use package.lsp.Base.Tests.{ltb, leb, ◌==◌, if◌then◌else◌, Bool-cases}
use package.lsp.Base.Lists.{All, All-append}
use package.lsp.Base.Text.{Char, Text, u64_max}

abbrev pub is_digit : Char → Bool
is_digit c = leb 48 c && leb c 57

-- `digits` digits at most, enough where they are more than the number
unfoldable pub decimal_from : ℕ → ℕ → Text
decimal_from zero n = []
decimal_from (suc digits) n =
    let front = decimal_from digits (n / 10) in
    if ltb n 10 then (48 + n) ∷ [] else front ++ (48 + n % 10) ∷ []

-- `n.to_string()`
unfoldable pub decimal : ℕ → Text
unfolding decimal_from
decimal n = decimal_from (suc n) n

unfoldable pub parse_digits : ℕ → Text → Option ℕ
parse_digits n [] = some n
parse_digits n (c ∷ t) =
    let value = n * 10 + (c - 48) in
    let rest = parse_digits value t in if is_digit c && leb value u64_max then rest else none

-- `text.parse::<u64>()`, which takes a sign `+`, and refuses no digits and what does not fit
unfoldable pub parse_u64 : Text → Option ℕ
unfolding parse_digits
parse_u64 [] = none
parse_u64 (c ∷ []) = parse_digits 0 (c ∷ [])
parse_u64 (c ∷ d ∷ t) = if c == 43 then parse_digits 0 (d ∷ t) else parse_digits 0 (c ∷ d ∷ t)

parse_digits-append :
    (k m c : ℕ) (t : Text)
    → parse_digits k t ≡ some m
    → parse_digits k (t ++ c ∷ []) ≡ parse_digits m (c ∷ [])
unfolding parse_digits
parse_digits-append k m c [] h = let same : k ≡ m = cc in rw same refl
parse_digits-append k m c (d ∷ t) h =
    elim (Bool-cases (is_digit d && leb (k * 10 + (d - 48)) u64_max)) [
      | inl e ↦ rw e (parse_digits-append (k * 10 + (d - 48)) m c t (rw e at h))
      | inr e ↦ absurd (none-not-some m (rw e at h))
    ]
  where
    none-not-some : (m : ℕ) → none ≡ some m → ⊥
    none-not-some m h = cc

parse_digits-digit :
    (k d : ℕ) → d < 10 → k * 10 + d ≤ u64_max → parse_digits k ((48 + d) ∷ []) ≡ some (k * 10 + d)
unfolding parse_digits
parse_digits-digit k d h fits =
    let value : k * 10 + (48 + d - 48) ≡ k * 10 + d = omega arith in
    let low : leb 48 (48 + d) ≡ true = ground arith in
    let high : leb (48 + d) 57 ≡ true = ground arith in
    let small : leb (k * 10 + d) u64_max ≡ true = ground arith in rw (value, low, high, small) refl

the_number : (n : ℕ) → 0 * 10 + n ≡ n
the_number n = omega arith

parse_digits-decimal_from :
    (digits n : ℕ) → n < digits → n ≤ u64_max → parse_digits 0 (decimal_from digits n) ≡ some n
unfolding decimal_from
parse_digits-decimal_from zero n h fits = absurd (omega arith)
parse_digits-decimal_from (suc digits) n h fits = elim (Bool-cases (ltb n 10)) [
  | inl e ↦
      rw e (
        parse_digits-digit 0 n (ground arith) (omega arith) ∙ ap (λ (m : ℕ). some m) (the_number n))
  | inr e ↦
      let whole : n / 10 * 10 + n % 10 ≡ n = omega arith in
      rw e (
        parse_digits-append 0 (n / 10) (48 + n % 10) (decimal_from digits (n / 10))
          (parse_digits-decimal_from digits (n / 10) (ground arith) (omega arith))
        ∙ parse_digits-digit (n / 10) (n % 10) (omega arith) (omega arith)
        ∙ ap (λ (m : ℕ). some m) whole)
]

abbrev pub IsDigit : Char → Type 0
IsDigit c = (48 ≤ c) × (c < 58)

decimal_from-IsDigit : (digits n : ℕ) → All IsDigit (decimal_from digits n)
unfolding decimal_from
decimal_from-IsDigit zero n = tt
decimal_from-IsDigit (suc digits) n = elim (Bool-cases (ltb n 10)) [
  | inl e ↦ rw e ((omega arith, ground arith), tt)
  | inr e ↦ rw e (
      All-append IsDigit (decimal_from digits (n / 10)) _ (decimal_from-IsDigit digits (n / 10))
        ((omega arith, omega arith), tt))
]

-- The decimal text is digits only.
pub decimal-IsDigit : (n : ℕ) → All IsDigit (decimal n)
unfolding decimal
decimal-IsDigit n = decimal_from-IsDigit (suc n) n

parse_u64-digits :
    (t : Text) (c n : ℕ)
    → All IsDigit (t ++ c ∷ [])
    → parse_digits 0 (t ++ c ∷ []) ≡ some n
    → parse_u64 (t ++ c ∷ []) ≡ some n
unfolding parse_u64
parse_u64-digits [] c n digits h = h
parse_u64-digits (d ∷ []) c n digits h =
    let unsigned : (d == 43) ≡ false = ground (arith, digits.0) in rw unsigned h
parse_u64-digits (d ∷ e ∷ t) c n digits h =
    let unsigned : (d == 43) ≡ false = ground (arith, digits.0) in rw unsigned h

pub parse_u64-decimal : (n : ℕ) → n ≤ u64_max → parse_u64 (decimal n) ≡ some n
unfolding decimal decimal_from
parse_u64-decimal n fits =
    let read = parse_digits-decimal_from (suc n) n (omega arith) fits in
    let digits = decimal_from-IsDigit (suc n) n in
    elim (Bool-cases (ltb n 10)) [
      | inl e ↦ rw e (parse_u64-digits [] (48 + n) n (rw e at digits) (rw e at read))
      | inr e ↦ rw e (
          parse_u64-digits (decimal_from n (n / 10)) (48 + n % 10) n (rw e at digits)
            (rw e at read))
    ]
