-- ===== src/Trace/Union.antt =====
-- trace.rs: `claim` adds a span to the union of the claimed ones and keeps the intervals disjoint.
use lsp.Base.{
  ℕ, zero, suc, ◌≤◌, ◌<◌, ◌≡◌, refl, sym, ◌∙◌, max, Bool, true, false, ◌||◌, Bool-cases, inl, inr,
  ◌⊎◌, Option, none, some, [], ◌∷◌, ltb, leb, ◌==◌, if◌then◌else◌, length, arith, All,
}
use lsp.Trace.{Spans, last_to, first_from, remove, insert, absorb_before, absorb_after, claim}
use lsp.Trace.Claims.{
  inside, covered, StartsAbove, StartsAbove-le, IsGapped, Apart, Taken, or_swap, LastTo,
  last_to-LastTo, FirstFrom, first_from-FirstFrom, remove-IsGapped,
}

-- every span ends before `start` or begins behind it
abbrev Clear : ℕ → Spans → Type 0
Clear start m = All (λ (p : ℕ × ℕ). (p.1 < start) ⊎ (start < p.0)) m

-- The spans `m` with the open span `start` to `end` cover what `m'` with `start'` to `end'` does.
abbrev SameUnion : Spans → ℕ → ℕ → Spans → ℕ → ℕ → Type 0
SameUnion m start end m' start' end' =
    (x : ℕ) → (inside x start end || covered x m) ≡ (inside x start' end' || covered x m')

All-remove : (P : ℕ × ℕ → Type 0) (k : ℕ) (m : Spans) → All P m → All P (remove k m)
unfolding remove
All-remove P k [] h = tt
All-remove P k ((s, e) ∷ m) h = elim (Bool-cases (s == k)) [
  | inl q ↦ rw q h.1
  | inr q ↦ rw q (h.0, All-remove P k m h.1)
]

Clear-none : (start : ℕ) (m : Spans) → StartsAbove start m → Clear start m
Clear-none start [] h = tt
Clear-none start ((s, e) ∷ m) h = (inr h.0, Clear-none start m h.1)

Clear-apart :
    (start k e : ℕ) (m : Spans)
    → e < start
    → All (λ (p : ℕ × ℕ). (p.1 ≤ e) ⊎ (start < p.0)) m
    → Clear start m
Clear-apart start k e [] h all = tt
Clear-apart start k e ((s, t) ∷ m) h all =
    (elim all.0 [ inl a ↦ inl (omega arith) | inr b ↦ inr b ], Clear-apart start k e m h all.1)

Clear-absorbed :
    (start s : ℕ) (m : Spans)
    → s ≤ start
    → All (λ (p : ℕ × ℕ). (p.1 < s) ⊎ (start < p.0)) m
    → Clear s m
Clear-absorbed start s [] h all = tt
Clear-absorbed start s ((a, b) ∷ m) h all =
    (elim all.0 [ inl p ↦ inl p | inr p ↦ inr (omega arith) ], Clear-absorbed start s m h all.1)

absorb_union :
    (x start end s e : ℕ) (c : Bool)
    → s ≤ start
    → start ≤ e
    → (inside x start end || (inside x s e || c)) ≡ (inside x s (max end e) || c)
absorb_union x start end s e c h h' = ground arith

absorb_union_after :
    (x start end s e : ℕ) (c : Bool)
    → start ≤ s
    → s ≤ end
    → (inside x start end || (inside x s e || c)) ≡ (inside x start (max end e) || c)
absorb_union_after x start end s e c h h' = ground arith

-- After the first half of `claim` nothing reaches over the start.
record Begun (m : Spans) (start end : ℕ) (r : Spans × ℕ × ℕ) : Type 0 where
  gapped : IsGapped r.0
  clear : Clear r.1 r.0
  ordered : r.1 ≤ r.2
  union : SameUnion m start end r.0 r.1 r.2

absorb_before-Begun :
    (m : Spans) (start end : ℕ) (o : Option (ℕ × ℕ))
    → IsGapped m
    → start ≤ end
    → LastTo start m o
    → Begun m start end (absorb_before o m start end)
unfolding absorb_before
absorb_before-Begun m start end none g h l = record {
  gapped = g;
  clear = Clear-none start m l;
  ordered = h;
  union = λ x. refl;
}
absorb_before-Begun m start end (some (s, e)) g h l = elim (Bool-cases (leb start e)) [
  | inl p ↦ rw p (record {
    gapped = remove-IsGapped s m g;
    clear = Clear-absorbed start s (remove s m) l.1 l.3;
    ordered = let below = l.1 in omega arith;
    union = λ x.
        rw (Taken.union l.0 x)
          (absorb_union x start end s e (covered x (remove s m)) l.1 (ground arith));
  })
  | inr p ↦ rw p (record {
    gapped = g;
    clear = Clear-apart start s e m (ground arith) l.4;
    ordered = h;
    union = λ x. refl;
  })
]

Apart-none :
    (start end : ℕ) (m : Spans)
    → Clear start m
    → All (λ (p : ℕ × ℕ). p.0 < start) m
    → Apart start end m
Apart-none start end [] c a = tt
Apart-none start end ((s, e) ∷ m) c a = (
  inl (elim c.0 [ inl p ↦ p | inr p ↦ absurd (let b = a.0 in omega arith) ]),
  Apart-none start end m c.1 a.1,
)

Apart-past :
    (start end s : ℕ) (m : Spans)
    → end < s
    → Clear start m
    → All (λ (p : ℕ × ℕ). (p.0 < start) ⊎ (s ≤ p.0)) m
    → Apart start end m
Apart-past start end s [] h c a = tt
Apart-past start end s ((s', e') ∷ m) h c a = (
  elim c.0 [
    | inl p ↦ inl p
    | inr p ↦ inr (elim a.0 [ inl q ↦ absurd (omega arith) | inr q ↦ omega arith ])
  ],
  Apart-past start end s m h c.1 a.1,
)

-- After the loop of `claim` nothing is within reach of the span.
record Ended (m : Spans) (start end : ℕ) (r : Spans × ℕ) : Type 0 where
  gapped : IsGapped r.0
  apart : Apart start r.1 r.0
  ordered : end ≤ r.1
  union : SameUnion m start end r.0 start r.1

absorb_after-Ended :
    (fuel : ℕ) (m : Spans) (start end : ℕ)
    → length m ≤ fuel
    → IsGapped m
    → Clear start m
    → Ended m start end (absorb_after fuel m start end)
unfolding absorb_after
absorb_after-Ended zero [] start end n g c = record {
  gapped = tt;
  apart = tt;
  ordered = omega arith;
  union = λ x. refl;
}
absorb_after-Ended zero (p ∷ m) start end n g c = absurd (omega arith)
absorb_after-Ended (suc fuel) m start end n g c =
    step (first_from start m) (first_from-FirstFrom start m g) (absorb_after-Ended fuel)
  where
    step :
        (o : Option (ℕ × ℕ))
        → FirstFrom start m o
        → ((m' : Spans) (start' end' : ℕ)
            → length m' ≤ fuel
            → IsGapped m'
            → Clear start' m'
            → Ended m' start' end' (absorb_after fuel m' start' end'))
        → Ended m start end (elim o [
          | none ↦ (m, end)
          | some (s, e) ↦
              let rest = absorb_after fuel (remove s m) start (max end e) in
              if ltb end s then (m, end) else rest
        ])
    step none f rec = record {
      gapped = g;
      apart = Apart-none start end m c f;
      ordered = omega arith;
      union = λ x. refl;
    }
    step (some (s, e)) f rec = elim (Bool-cases (ltb end s)) [
      | inl p ↦ rw p (record {
        gapped = g;
        apart = Apart-past start end s m (ground arith) c f.3;
        ordered = omega arith;
        union = λ x. refl;
      })
      | inr p ↦
          let later =
            rec (remove s m) start (max end e) (let l = Taken.shorter f.0 in omega arith)
              (remove-IsGapped s m g)
              (All-remove (λ (q : ℕ × ℕ). (q.1 < start) ⊎ (start < q.0)) s m c) in
          rw p (record {
            gapped = Ended.gapped later;
            apart = Ended.apart later;
            ordered = let grown = Ended.ordered later in omega arith;
            union = λ x. rw (Taken.union f.0 x) (
                absorb_union_after x start end s e (covered x (remove s m)) f.1 (ground arith)
                ∙ Ended.union later x);
          })
    ]

insert-StartsAbove :
    (b k v : ℕ) (m : Spans) → b < k → StartsAbove b m → StartsAbove b (insert k v m)
unfolding insert
insert-StartsAbove b k v [] h all = (h, tt)
insert-StartsAbove b k v ((s, e) ∷ m) h all = elim (Bool-cases (ltb k s)) [
  | inl p ↦ rw p (h, all)
  | inr p ↦ rw p (elim (Bool-cases (s == k)) [
    | inl q ↦ rw q (h, all.1)
    | inr q ↦ rw q (all.0, insert-StartsAbove b k v m h all.1)
  ])
]

-- A span apart from the first interval is before it or behind it.
apart_cases :
    (start end s e : ℕ)
    → start ≤ end
    → s ≤ e
    → (e < start) ⊎ (end < s)
    → ((ltb start s ≡ true) × (end < s))
      ⊎ ((ltb start s ≡ false) × ((s == start) ≡ false) × (e < start))
apart_cases start end s e h h' (inl p) = inr (ground arith, ground arith, p)
apart_cases start end s e h h' (inr p) = inl (ground arith, p)

insert-IsGapped :
    (start end : ℕ) (m : Spans)
    → start ≤ end
    → IsGapped m
    → Apart start end m
    → IsGapped (insert start end m)
unfolding insert
insert-IsGapped start end [] h g a = (h, tt, tt)
insert-IsGapped start end ((s, e) ∷ m) h g a = elim (apart_cases start end s e h g.0 a.0) [
  | inl p ↦
      rw p.0 (
        h,
        (p.1, StartsAbove-le end e m (let filled = g.0 in let past = p.1 in omega arith) g.1),
        g,
      )
  | inr p ↦
      rw (p.0, p.1)
        (g.0, insert-StartsAbove e start end m p.2 g.1, insert-IsGapped start end m h g.2 a.1)
]

covered-insert :
    (x start end : ℕ) (m : Spans)
    → start ≤ end
    → IsGapped m
    → Apart start end m
    → covered x (insert start end m) ≡ (inside x start end || covered x m)
unfolding insert
covered-insert x start end [] h g a = refl
covered-insert x start end ((s, e) ∷ m) h g a = elim (apart_cases start end s e h g.0 a.0) [
  | inl p ↦ rw p.0
  | inr p ↦
      rw (p.0, p.1, covered-insert x start end m h g.2 a.1)
        (or_swap (inside x s e) (inside x start end) (covered x m))
]

-- Claiming a span, whose start is not behind its end, keeps the intervals ascending, disjoint and
-- apart, and the claimed offsets are then those claimed before and those of the span.
pub claim-union :
    (m : Spans) (start end : ℕ)
    → IsGapped m
    → start ≤ end
    → IsGapped (claim m start end)
      × ((x : ℕ) → covered x (claim m start end) ≡ (inside x start end || covered x m))
unfolding claim
claim-union m start end g h =
    let begun = absorb_before-Begun m start end (last_to start m) g h (last_to-LastTo start m g) in
    let (before, start', end') = absorb_before (last_to start m) m start end in
    let ended =
      absorb_after-Ended (length before) before start' end' (omega arith) begun.gapped
        begun.clear in
    let filled : start' ≤ (absorb_after (length before) before start' end').1 =
      let a = begun.ordered in let b = ended.ordered in omega arith in
    (
      insert-IsGapped start' (absorb_after (length before) before start' end').1
          (absorb_after (length before) before start' end').0 filled ended.gapped ended.apart,
      λ x.
          covered-insert x start' (absorb_after (length before) before start' end').1
            (absorb_after (length before) before start' end').0 filled ended.gapped ended.apart
          ∙ sym (ended.union x)
          ∙ sym (begun.union x),
    )
