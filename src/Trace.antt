-- ===== src/Trace.antt =====
-- rs/src/trace.rs: the reconciliation of a lex trace. A `BTreeMap` of spans is the list of its entries in
-- the order of their keys.
pub mod Claims
pub mod Union
pub mod Reference
pub mod Result
pub mod Anchor
use lsp.Base.{
  ℕ, zero, suc, ◌+◌, ◌-◌, max, Bool, true, false, not, ◌&&◌, ◌||◌, Option, none, some, List, [],
  ◌∷◌, ◌++◌, reverse, ltb, leb, ◌==◌, if◌then◌else◌, length,
}
use lsp.Base.Sort.{sort, by_key}
use lsp.Base.Text.{
  Char, Text, u32_max, usize_max, len_utf8, byte_len, is_char_boundary, take_bytes, slice,
  saturating_add, text_eq,
}
use lsp.Types.{TokenPoint}

-- TokenPoint::span
unfoldable pub span : TokenPoint → ℕ
span t = max t.len 1

abbrev pub Spans : Type 0
Spans = List (ℕ × ℕ)

-- range(..=k).next_back()
unfoldable pub last_to : ℕ → Spans → Option (ℕ × ℕ)
last_to k [] = none
last_to k ((s, e) ∷ m) =
    let later = last_to k m in
    if leb s k then (elim later [ none ↦ some (s, e) | some p ↦ some p ]) else none

-- range(k..).next()
unfoldable pub first_from : ℕ → Spans → Option (ℕ × ℕ)
first_from k [] = none
first_from k ((s, e) ∷ m) = if leb k s then some (s, e) else first_from k m

unfoldable pub remove : ℕ → Spans → Spans
remove k [] = []
remove k ((s, e) ∷ m) = if s == k then m else (s, e) ∷ remove k m

unfoldable pub insert : ℕ → ℕ → Spans → Spans
insert k v [] = (k, v) ∷ []
insert k v ((s, e) ∷ m) =
    if ltb k s then (k, v) ∷ (s, e) ∷ m else if s == k then (k, v) ∷ m else (s, e) ∷ insert k v m

-- the first half of `claim`: the interval before `start` is taken in where it reaches `start`
unfoldable pub absorb_before : Option (ℕ × ℕ) → Spans → ℕ → ℕ → Spans × ℕ × ℕ
absorb_before none claimed start end = (claimed, start, end)
absorb_before (some (s, e)) claimed start end =
    if leb start e then (remove s claimed, s, max end e) else (claimed, start, end)

-- the loop of `claim`, whose every round removes an interval: as much fuel as intervals is enough
unfoldable pub absorb_after : ℕ → Spans → ℕ → ℕ → Spans × ℕ
absorb_after zero claimed start end = (claimed, end)
absorb_after (suc fuel) claimed start end = elim (first_from start claimed) [
  | none ↦ (claimed, end)
  | some (s, e) ↦
      let rest = absorb_after fuel (remove s claimed) start (max end e) in
      if ltb end s then (claimed, end) else rest
]

unfoldable pub claim : Spans → ℕ → ℕ → Spans
unfolding absorb_before
claim claimed start end =
    let (before, start', end') = absorb_before (last_to start claimed) claimed start end in
    let (after, end'') = absorb_after (length before) before start' end' in
    insert start' end'' after

-- is_some_and(|(_, &end)| at.si < end)
unfoldable pub reaches_past : ℕ → Option (ℕ × ℕ) → Bool
reaches_past si none = false
reaches_past si (some (s, e)) = ltb si e

unfoldable pub unwrap_or {ℓ} : {A : Type ℓ} → Option A → A → A
unwrap_or none d = d
unwrap_or (some a) d = a

-- the loop of `reconcile_placed`, over the events from the newest on
unfoldable pub reconcile_loop :
    (TokenPoint → Option TokenPoint) → List TokenPoint → Spans → List TokenPoint → List TokenPoint
unfolding unwrap_or reaches_past
reconcile_loop place [] claimed out = out
reconcile_loop place (event ∷ events) claimed out =
    let at = unwrap_or (place event) event in
    let skipped = reconcile_loop place events claimed out in
    let kept =
      reconcile_loop place events (claim claimed at.si (saturating_add at.si (span at)))
        (out ++ at ∷ []) in
    if reaches_past at.si (last_to at.si claimed) then skipped else kept

unfoldable pub reconcile_placed :
    List TokenPoint → (TokenPoint → Option TokenPoint) → List TokenPoint
reconcile_placed events place =
    sort (by_key (λ (t : TokenPoint). t.si)) (reconcile_loop place (reverse events) [] [])

unfoldable pub reconcile : List TokenPoint → List TokenPoint
reconcile events = reconcile_placed events (λ _. none)

infixl 5 ◌>>=◌ ◌>>◌
abbrev pub ◌>>=◌ {ℓ κ} : {A : Type ℓ} {B : Type κ} → Option A → (A → Option B) → Option B
none >>= f = none
some a >>= f = f a

abbrev pub ◌>>◌ {ℓ} : {B : Type ℓ} → Option (Unit {0}) → Option B → Option B
m >> k = m >>= λ _. k

-- an early `return None`, unless the test holds
abbrev pub guard : Bool → Option (Unit {0})
guard true = some tt
guard false = none

-- str::get of a range: none out of the text or inside a character
unfoldable pub get_range : Text → ℕ → ℕ → Option Text
get_range t a b =
    if leb a b && (is_char_boundary t a && is_char_boundary t b) then some (slice t a b) else none

-- `text.get(a..b) == Some(src)`
unfoldable pub holds_at : Text → ℕ → ℕ → Text → Bool
unfolding get_range
holds_at t a b src = elim (get_range t a b) [ none ↦ false | some part ↦ text_eq part src ]

unfoldable pub checked_add : ℕ → ℕ → Option ℕ
checked_add a b = if leb (a + b) usize_max then some (a + b) else none

unfoldable pub checked_sub : ℕ → ℕ → Option ℕ
checked_sub a b = if leb b a then some (a - b) else none

-- the pattern `['\n', '\r']`
unfoldable pub is_break : Char → Bool
is_break c = c == b'\n' || c == b'\r'

unfoldable pub has_break : Text → Bool
unfolding is_break
has_break [] = false
has_break (c ∷ t) = is_break c || has_break t

-- str::rfind of a break, from byte `i` on
unfoldable pub rfind_break : ℕ → Text → Option ℕ
unfolding is_break
rfind_break i [] = none
rfind_break i (c ∷ t) = elim (rfind_break (i + len_utf8 c) t) [
  | some j ↦ some j
  | none ↦ if is_break c then some i else none
]

-- `matches('\n').count()`
unfoldable pub count_feeds : Text → ℕ
count_feeds [] = 0
count_feeds (c ∷ t) = (if c == b'\n' then 1 else 0) + count_feeds t

-- where the engine's column count began: behind the last break before `start`
unfoldable pub count_start : Text → ℕ → ℕ
count_start text start = elim (rfind_break 0 (take_bytes start text)) [ none ↦ 0 | some i ↦ i + 1 ]

unfoldable pub moved_column : TokenPoint → Text → ℕ → ℕ
moved_column event text start =
    let chars = length event.src in
    if has_break event.src || leb event.ci chars
    then length (slice text (count_start text start) start) + 1
    else event.ci - chars

unfoldable pub anchor : TokenPoint → Text → Option TokenPoint
anchor event text =
    let n = byte_len event.src in
    do
      guard (not (n == 0 || not (event.len == n)))
      end ← checked_add event.si n
      guard (not (holds_at text event.si end event.src))
      start ← checked_sub event.si n
      guard (holds_at text start event.si event.src)
      some (record event {
        si = start;
        ri = event.ri - count_feeds event.src;
        ci = moved_column event text start;
      })

unfoldable pub reconcile_in : List TokenPoint → Text → List TokenPoint
reconcile_in events text = reconcile_placed events (λ event. anchor event text)
