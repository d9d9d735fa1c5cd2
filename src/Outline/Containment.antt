-- ===== src/Outline/Containment.antt =====
-- outline.rs: the stack walk of `nest` against the history of every symbol before.
use lsp.Base.{
  ℕ, suc, ◌≤◌, ◌<◌, ◌≡◌, ◌⊎◌, refl, ap, ap₂, true, false, Bool-cases, inl, inr, Option, none, some,
  List, [], ◌∷◌, leb, if◌then◌else◌, length, arith, All,
}
use lsp.Base.Sort.{sort, insert_sorted}
use lsp.Outline.Nesting.{
  DocumentSymbol, Spanned, max_outline_depth, before, encloses, Frame, unwind, Place, left_out,
  at_root, child_of, place_on, push_on, walk,
}

-- a symbol of the history: its number, itself and its depth
abbrev pub Known : Type 0
Known = ℕ × Spanned × ℕ

-- the latest symbol before that encloses `s`
unfoldable pub enclosing : Spanned → List Known → Option Known
enclosing s [] = none
enclosing s (known ∷ history) = if encloses known.1 s then some known else enclosing s history

abbrev pub depth_under : Option Known → ℕ
depth_under none = 1
depth_under (some known) = suc known.2

abbrev pub parent_place : Option Known → Place
parent_place none = at_root
parent_place (some known) = child_of known.0

-- a symbol under its parent, unless it is too deep
abbrev pub place_under : Option Known → Place
place_under parent =
    if leb (depth_under parent) max_outline_depth then parent_place parent else left_out

-- the placement with no stack: nothing is ever forgotten
unfoldable pub place_all : ℕ → List Spanned → List Known → List (Place × DocumentSymbol)
unfolding enclosing
place_all i [] history = []
place_all i (s ∷ symbols) history =
    let parent = enclosing s history in
    (place_under parent, s.symbol_of)
    ∷ place_all (suc i) symbols ((i, s, depth_under parent) ∷ history)

abbrev pub StartsFrom : ℕ → List Spanned → Type 0
StartsFrom b [] = Unit
StartsFrom b (s ∷ symbols) = (b ≤ s.start) × StartsFrom s.start symbols

-- the top of a stack of height `n`, against the symbol that the history has for it
abbrev FitsAt : Frame → Known → ℕ → Type 0
FitsAt top known n =
    ((known.2 ≤ max_outline_depth) × (top ≡ (known.0, known.1)) × (n ≡ known.2))
    ⊎ ((max_outline_depth < known.2) × (max_outline_depth ≤ n))

abbrev place_at : ℕ → Frame → Place
place_at n top = if leb max_outline_depth n then left_out else child_of top.0

cons-not-nil : (top : Frame) (stack : List Frame) → (top ∷ stack) ≡ [] → ⊥
cons-not-nil top stack h = cc

-- an unwound stack, against what the history knows
abbrev Fits : List Frame → Option Known → Type 0
Fits stack none = stack ≡ []
Fits [] (some known) = ⊥
Fits (top ∷ stack) (some known) = FitsAt top known (length (top ∷ stack))

record Agrees (b : ℕ) (stack : List Frame) (history : List Known) : Type 0 where
  starts : All (λ (f : Frame). f.1.start ≤ b) stack
  fits : (s : Spanned) → b ≤ s.start → Fits (unwind s stack) (enclosing s history)

-- What a symbol pops encloses nothing that it does not enclose itself.
unwind-unwind :
    (s s' : Spanned) (stack : List Frame) (b : ℕ)
    → All (λ (f : Frame). f.1.start ≤ b) stack
    → b ≤ s.start
    → s.start ≤ s'.start
    → encloses s s' ≡ false
    → unwind s' (unwind s stack) ≡ unwind s' stack
unfolding unwind
unwind-unwind s s' [] b starts h k apart = refl
unwind-unwind s s' (top ∷ stack) b starts h k apart = elim (Bool-cases (encloses top.1 s)) [
  | inl e ↦ rw e refl
  | inr e ↦
      let f : encloses top.1 s' ≡ false = let le = starts.0 in ground (arith, le, e, apart, h, k) in
      rw (e, f) (unwind-unwind s s' stack b starts.1 h k apart)
]

-- What encloses a symbol stays on the stack under anything the symbol encloses.
unwind_within :
    (s s' : Spanned) (stack : List Frame)
    → encloses s s' ≡ true
    → unwind s' (unwind s stack) ≡ unwind s stack
unfolding unwind
unwind_within s s' [] within = refl
unwind_within s s' (top ∷ stack) within = elim (Bool-cases (encloses top.1 s)) [
  | inl e ↦ let f : encloses top.1 s' ≡ true = ground (arith, e, within) in rw (e, f) refl
  | inr e ↦ rw e (unwind_within s s' stack within)
]

deep_enough :
    (top : Frame) (known : Known) (n : ℕ)
    → FitsAt top known n
    → place_at n top ≡ place_under (some known)
deep_enough top known n (inl (shallow, same, deep)) =
    let number : top.0 ≡ known.0 = ap (λ (f : Frame). f.0) same in
    ground (arith, number, shallow, deep)
deep_enough top known n (inr h) = ground (arith, h.0, h.1)

place_on-Fits :
    (stack : List Frame) (parent : Option Known)
    → Fits stack parent
    → place_on stack ≡ place_under parent
unfolding place_on
place_on-Fits [] none h = refl
place_on-Fits (top ∷ stack) none h = absurd (cons-not-nil top stack h)
place_on-Fits [] (some known) h = absurd h
place_on-Fits (top ∷ stack) (some known) h = deep_enough top known (length (top ∷ stack)) h

pushed_deep :
    (i : ℕ) (s : Spanned) (stack : List Frame) (parent : Option Known)
    → Fits stack parent
    → max_outline_depth ≤ length stack
    → Fits stack (some (i, s, depth_under parent))
pushed_deep i s [] parent h full = ground (arith, full)
pushed_deep i s (top ∷ stack) none h full = absurd (cons-not-nil top stack h)
pushed_deep i s (top ∷ stack) (some known) (inl (shallow, same, deep)) full =
    inr (omega arith, full)
pushed_deep i s (top ∷ stack) (some known) (inr (deeper, high)) full = inr (omega arith, full)

pushed_shallow :
    (i : ℕ) (s : Spanned) (stack : List Frame) (parent : Option Known)
    → Fits stack parent
    → length stack < max_outline_depth
    → FitsAt (i, s) (i, s, depth_under parent) (suc (length stack))
pushed_shallow i s [] none h room = inl (omega arith, refl, refl)
pushed_shallow i s (top ∷ stack) none h room = absurd (cons-not-nil top stack h)
pushed_shallow i s [] (some known) h room = absurd h
pushed_shallow i s (top ∷ stack) (some known) (inl (shallow, same, deep)) room =
    inl (omega arith, refl, omega arith)
pushed_shallow i s (top ∷ stack) (some known) (inr (deeper, high)) room =
    absurd (omega (arith, room, high))

-- The stack with `s` on it, seen by a later symbol that `s` encloses.
Fits-pushed :
    (i : ℕ) (s s' : Spanned) (stack : List Frame) (parent : Option Known)
    → Fits stack parent
    → encloses s s' ≡ true
    → unwind s' stack ≡ stack
    → Fits (unwind s' (push_on i s stack)) (some (i, s, depth_under parent))
unfolding unwind
Fits-pushed i s s' stack parent h within kept =
    elim (Bool-cases (leb max_outline_depth (length stack))) [
      | inl e ↦ rw (e, kept) (pushed_deep i s stack parent h (ground (arith, e)))
      | inr e ↦ rw (e, within) (pushed_shallow i s stack parent h (ground (arith, e)))
    ]

unwind-push_on :
    (i : ℕ) (s s' : Spanned) (stack : List Frame)
    → encloses s s' ≡ false
    → unwind s' (push_on i s stack) ≡ unwind s' stack
unfolding unwind
unwind-push_on i s s' stack apart = elim (Bool-cases (leb max_outline_depth (length stack))) [
  | inl e ↦ rw e refl
  | inr e ↦ rw (e, apart) refl
]

starts-unwind :
    (b b' : ℕ) (s : Spanned) (stack : List Frame)
    → b ≤ b'
    → All (λ (f : Frame). f.1.start ≤ b) stack
    → All (λ (f : Frame). f.1.start ≤ b') (unwind s stack)
unfolding unwind
starts-unwind b b' s [] le h = tt
starts-unwind b b' s (top ∷ stack) le h = elim (Bool-cases (encloses top.1 s)) [
  | inl e ↦ rw e (let first = h.0 in omega arith, raise b b' stack le h.1)
  | inr e ↦ rw e (starts-unwind b b' s stack le h.1)
]
  where
    raise :
        (b b' : ℕ) (stack : List Frame)
        → b ≤ b'
        → All (λ (f : Frame). f.1.start ≤ b) stack
        → All (λ (f : Frame). f.1.start ≤ b') stack
    raise b b' [] le h = tt
    raise b b' (top ∷ stack) le h = (let first = h.0 in omega arith, raise b b' stack le h.1)

starts-push_on :
    (i : ℕ) (s : Spanned) (stack : List Frame)
    → All (λ (f : Frame). f.1.start ≤ s.start) stack
    → All (λ (f : Frame). f.1.start ≤ s.start) (push_on i s stack)
starts-push_on i s stack h = elim (Bool-cases (leb max_outline_depth (length stack))) [
  | inl e ↦ rw e h
  | inr e ↦ rw e (omega arith, h)
]

Agrees-step :
    (b i : ℕ) (s : Spanned) (stack : List Frame) (history : List Known)
    → Agrees b stack history
    → b ≤ s.start
    → Agrees s.start
        (push_on i s (unwind s stack))
        ((i, s, depth_under (enclosing s history)) ∷ history)
unfolding enclosing
Agrees-step b i s stack history a le = record {
  starts = starts-push_on i s (unwind s stack) (starts-unwind b s.start s stack le a.starts);
  fits = λ s' le'. elim (Bool-cases (encloses s s')) [
    | inl within ↦ rw within (
        Fits-pushed i s s' (unwind s stack) (enclosing s history) (a.fits s le) within
          (unwind_within s s' stack within))
    | inr apart ↦
        rw
          (
            apart,
            unwind-push_on i s s' (unwind s stack) apart,
            unwind-unwind s s' stack b a.starts le le' apart,
          )
          (a.fits s' (omega arith))
  ];
}

walk-place_all_from :
    (b i : ℕ) (symbols : List Spanned) (stack : List Frame) (history : List Known)
    → StartsFrom b symbols
    → Agrees b stack history
    → walk i symbols stack ≡ place_all i symbols history
unfolding walk place_all
walk-place_all_from b i [] stack history starts a = refl
walk-place_all_from b i (s ∷ symbols) stack history starts a =
    ap₂ (λ (p : Place) (rest : List (Place × DocumentSymbol)). (p, s.symbol_of) ∷ rest)
      (place_on-Fits (unwind s stack) (enclosing s history) (a.fits s starts.0))
      (walk-place_all_from s.start (suc i) symbols (push_on i s (unwind s stack))
        ((i, s, depth_under (enclosing s history)) ∷ history) starts.1
        (Agrees-step b i s stack history a starts.0))

walk-place_all :
    (symbols : List Spanned) → StartsFrom 0 symbols → walk 0 symbols [] ≡ place_all 0 symbols []
unfolding unwind enclosing
walk-place_all symbols starts =
    walk-place_all_from 0 0 symbols [] [] starts (record { starts = tt; fits = λ s h. refl })

insert_sorted-StartsFrom :
    (b : ℕ) (s : Spanned) (symbols : List Spanned)
    → b ≤ s.start
    → StartsFrom b symbols
    → StartsFrom b (insert_sorted before s symbols)
unfolding insert_sorted
insert_sorted-StartsFrom b s [] le h = (le, tt)
insert_sorted-StartsFrom b s (t ∷ symbols) le h = elim (Bool-cases (before s t)) [
  | inl e ↦ rw e (le, (ground (arith, e), h.1))
  | inr e ↦ rw e (h.0, insert_sorted-StartsFrom t.start s symbols (ground (arith, e)) h.1)
]

sort-StartsFrom : (symbols : List Spanned) → StartsFrom 0 (sort before symbols)
unfolding sort
sort-StartsFrom [] = tt
sort-StartsFrom (s ∷ symbols) =
    insert_sorted-StartsFrom 0 s (sort before symbols) (omega arith) (sort-StartsFrom symbols)

-- The stack walk of `nest` gives every symbol the latest symbol before it, in the sorted order,
-- that encloses it, and leaves out just those whose depth under such parents, left-out ones
-- counted, is beyond the bound.
pub walk_sorted-place_all :
    (symbols : List Spanned)
    → walk 0 (sort before symbols) [] ≡ place_all 0 (sort before symbols) []
walk_sorted-place_all symbols = walk-place_all (sort before symbols) (sort-StartsFrom symbols)
