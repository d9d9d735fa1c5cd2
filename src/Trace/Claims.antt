-- ===== src/Trace/Claims.antt =====
-- trace.rs: `claim` and the test for a shadowed offset, against the set of offsets that the spans cover.
use lsp.Base.{
  ℕ, suc, ◌≤◌, ◌<◌, ◌≡◌, refl, ap, Bool, true, false, ◌&&◌, ◌||◌, Bool-cases, Option-cases, inl,
  inr, ◌⊎◌, Option, none, some, [], ◌∷◌, ltb, leb, ◌==◌, length, arith, All,
}
use lsp.Trace.{Spans, last_to, first_from, remove, reaches_past}

abbrev pub inside : ℕ → ℕ → ℕ → Bool
inside x s e = leb s x && ltb x e

-- the union of the spans
abbrev pub covered : ℕ → Spans → Bool
covered x [] = false
covered x ((s, e) ∷ m) = inside x s e || covered x m

abbrev pub StartsAbove : ℕ → Spans → Type 0
StartsAbove b m = All (λ (p : ℕ × ℕ). b < p.0) m

-- Ascending, disjoint and not touching.
abbrev pub IsGapped : Spans → Type 0
IsGapped [] = Unit
IsGapped ((s, e) ∷ m) = (s ≤ e) × StartsAbove e m × IsGapped m

-- apart from the span `start` to `end`, with a gap
abbrev pub Apart : ℕ → ℕ → Spans → Type 0
Apart start end m = All (λ (p : ℕ × ℕ). (p.1 < start) ⊎ (end < p.0)) m

pub StartsAbove-le : (a b : ℕ) (m : Spans) → a ≤ b → StartsAbove b m → StartsAbove a m
StartsAbove-le a b [] h all = tt
StartsAbove-le a b ((s, e) ∷ m) h all = (omega arith, StartsAbove-le a b m h all.1)

uncovered-StartsAbove : (x b : ℕ) (m : Spans) → x ≤ b → StartsAbove b m → covered x m ≡ false
uncovered-StartsAbove x b [] h all = refl
uncovered-StartsAbove x b ((s, e) ∷ m) h all = ground (arith, uncovered-StartsAbove x b m h all.1)

last_to-StartsAbove : (k b : ℕ) (m : Spans) → k ≤ b → StartsAbove b m → last_to k m ≡ none
unfolding last_to
last_to-StartsAbove k b [] h all = refl
last_to-StartsAbove k b ((s, e) ∷ m) h all = ground arith

-- Over intervals that ascend without touching, one look-up of the last interval to start at or
-- before an offset decides whether the offset is in any of them.
pub reaches_past-covered :
    (x : ℕ) (m : Spans) → IsGapped m → reaches_past x (last_to x m) ≡ covered x m
unfolding reaches_past last_to
reaches_past-covered x [] g = refl
reaches_past-covered x ((s, e) ∷ m) g = elim (Option-cases (last_to x m)) [
  | inl h ↦ rw h (ground (arith, reaches_past-covered x m g.2, uncovered-StartsAbove x e m))
  | inr (p, h) ↦ rw h (
      ground (
        arith,
        reaches_past-covered x m g.2,
        uncovered-StartsAbove x e m,
        last_to-StartsAbove x e m,
      ))
]

pub remove-StartsAbove : (k b : ℕ) (m : Spans) → StartsAbove b m → StartsAbove b (remove k m)
unfolding remove
remove-StartsAbove k b [] all = tt
remove-StartsAbove k b ((s, e) ∷ m) all = elim (Bool-cases (s == k)) [
  | inl h ↦ rw h all.1
  | inr h ↦ rw h (all.0, remove-StartsAbove k b m all.1)
]

pub remove-IsGapped : (k : ℕ) (m : Spans) → IsGapped m → IsGapped (remove k m)
unfolding remove
remove-IsGapped k [] g = tt
remove-IsGapped k ((s, e) ∷ m) g = elim (Bool-cases (s == k)) [
  | inl h ↦ rw h g.2
  | inr h ↦ rw h (g.0, remove-StartsAbove k e m g.1, remove-IsGapped k m g.2)
]

remove_self : (s e : ℕ) (m : Spans) → remove s ((s, e) ∷ m) ≡ m
unfolding remove
remove_self s e m = ground arith

remove_other : (k s e : ℕ) (m : Spans) → s < k → remove k ((s, e) ∷ m) ≡ (s, e) ∷ remove k m
unfolding remove
remove_other k s e m h = ground arith

-- A span of the map, and what is left of the map without it.
pub record Taken (m : Spans) (s e : ℕ) : Type 0 where
  pub filled : s ≤ e
  pub union : (x : ℕ) → covered x m ≡ (inside x s e || covered x (remove s m))
  pub shorter : length m ≡ suc (length (remove s m))

Taken-here : (m : Spans) (s e : ℕ) → s ≤ e → Taken ((s, e) ∷ m) s e
Taken-here m s e h = record {
  filled = h;
  union = λ x. rw (remove_self s e m);
  shorter = rw (remove_self s e m);
}

pub or_swap : (a b c : Bool) → (a || (b || c)) ≡ (b || (a || c))
or_swap true true c = refl
or_swap true false c = refl
or_swap false b c = refl

Taken-later : (m : Spans) (s e s' e' : ℕ) → s' < s → Taken m s e → Taken ((s', e') ∷ m) s e
Taken-later m s e s' e' h t = record {
  filled = t.filled;
  union = λ x.
      rw (remove_other s s' e' m h, t.union x)
        (or_swap (inside x s' e') (inside x s e) (covered x (remove s m)));
  shorter = rw (remove_other s s' e' m h) (ap suc t.shorter);
}

-- What `last_to` answers: no span starts up to `k`, or the last that does, and all others are before its start
-- or behind `k`.
abbrev pub LastTo : ℕ → Spans → Option (ℕ × ℕ) → Type 0
LastTo k m none = StartsAbove k m
LastTo k m (some (s, e)) =
    Taken m s e
    × (s ≤ k)
    × ((b : ℕ) → StartsAbove b m → b < s)
    × All (λ (p : ℕ × ℕ). (p.1 < s) ⊎ (k < p.0)) (remove s m)
    × All (λ (p : ℕ × ℕ). (p.1 ≤ e) ⊎ (k < p.0)) m

StartsAbove-to :
    (k e : ℕ) (m : Spans) → StartsAbove k m → All (λ (p : ℕ × ℕ). (p.1 ≤ e) ⊎ (k < p.0)) m
StartsAbove-to k e [] h = tt
StartsAbove-to k e ((a, b) ∷ m) h = (inr h.0, StartsAbove-to k e m h.1)

StartsAbove-others :
    (k s : ℕ) (m : Spans) → StartsAbove k m → All (λ (p : ℕ × ℕ). (p.1 < s) ⊎ (k < p.0)) m
StartsAbove-others k s [] h = tt
StartsAbove-others k s ((a, b) ∷ m) h = (inr h.0, StartsAbove-others k s m h.1)

LastTo-cons :
    (k s e : ℕ) (m : Spans) (o : Option (ℕ × ℕ))
    → IsGapped ((s, e) ∷ m)
    → s ≤ k
    → LastTo k m o
    → LastTo k ((s, e) ∷ m) (elim o [ none ↦ some (s, e) | some p ↦ some p ])
LastTo-cons k s e m none g h l = (
  Taken-here m s e g.0,
  h,
  λ b all. all.0,
  rw (remove_self s e m) (StartsAbove-others k s m l),
  (inl (omega arith), StartsAbove-to k e m l),
)
LastTo-cons k s e m (some (s', e')) g h l =
    let above : e < s' = l.2 e g.1 in
    let starts = g.0 in
    let before : s < s' = omega arith in
    (
      Taken-later m s' e' s e before l.0,
      l.1,
      λ b all. l.2 b all.1,
      rw (remove_other s' s e m before) (inl above, l.3),
      (inl (let t = l.0 in let filled = t.filled in omega arith), l.4),
    )

pub last_to-LastTo : (k : ℕ) (m : Spans) → IsGapped m → LastTo k m (last_to k m)
unfolding last_to
last_to-LastTo k [] g = tt
last_to-LastTo k ((s, e) ∷ m) g = elim (Bool-cases (leb s k)) [
  | inl h ↦ rw h (LastTo-cons k s e m (last_to k m) g (ground arith) (last_to-LastTo k m g.2))
  | inr h ↦ rw h (ground arith, StartsAbove-le k e m (ground arith) g.1)
]

-- What `first_from` answers: all spans start before `k`, or the first that does not, and all others start
-- before `k` or behind its end.
abbrev pub FirstFrom : ℕ → Spans → Option (ℕ × ℕ) → Type 0
FirstFrom k m none = All (λ (p : ℕ × ℕ). p.0 < k) m
FirstFrom k m (some (s, e)) =
    Taken m s e
    × (k ≤ s)
    × ((b : ℕ) → StartsAbove b m → b < s)
    × All (λ (p : ℕ × ℕ). (p.0 < k) ⊎ (s ≤ p.0)) m

FirstFrom-cons :
    (k s e : ℕ) (m : Spans) (o : Option (ℕ × ℕ))
    → IsGapped ((s, e) ∷ m)
    → s < k
    → FirstFrom k m o
    → FirstFrom k ((s, e) ∷ m) o
FirstFrom-cons k s e m none g h f = (h, f)
FirstFrom-cons k s e m (some (s', e')) g h f =
    let later = f.1 in
    (Taken-later m s' e' s e (omega arith) f.0, f.1, λ b all. f.2 b all.1, (inl h, f.3))

StartsAbove-from :
    (k s e : ℕ) (m : Spans) → s ≤ e → StartsAbove e m → All (λ (p : ℕ × ℕ). (p.0 < k) ⊎ (s ≤ p.0)) m
StartsAbove-from k s e [] h all = tt
StartsAbove-from k s e ((a, b) ∷ m) h all = (inr (omega arith), StartsAbove-from k s e m h all.1)

pub first_from-FirstFrom : (k : ℕ) (m : Spans) → IsGapped m → FirstFrom k m (first_from k m)
unfolding first_from
first_from-FirstFrom k [] g = tt
first_from-FirstFrom k ((s, e) ∷ m) g = elim (Bool-cases (leb k s)) [
  | inl h ↦ rw h (
    Taken-here m s e g.0,
    ground arith,
    λ b all. all.0,
    (inr (omega arith), StartsAbove-from k s e m g.0 g.1),
  )
  | inr h ↦
      rw h (FirstFrom-cons k s e m (first_from k m) g (ground arith) (first_from-FirstFrom k m g.2))
]
