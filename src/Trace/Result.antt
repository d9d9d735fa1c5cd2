-- ===== src/Trace/Result.antt =====
-- trace.rs: what a reconciled trace holds.
use mathlib.Core.List.{reverse-reverse}
use lsp.Base.{
  ℕ, ◌≤◌, ◌<◌, ◌≡◌, ◌≢◌, refl, sym, ap, subst, Bool, true, false, ◌||◌, Bool-cases, inl, inr,
  Option, leb, arith, List, [], ◌∷◌, ◌++◌, reverse, All, All-append,
}
use lsp.Base.Sort.{insert_sorted, sort, by_key, IsAscending, sort-IsAscending}
use lsp.Base.Text.{usize_max, saturating_add}
use lsp.Types.{TokenPoint}
use lsp.Trace.{span, reconcile_placed}
use lsp.Trace.Claims.{or_swap}
use lsp.Trace.Reference.{
  claims, shadowed, scan, shadowed-concat, All-reverse, Placed, reconcile_placed-scan,
}

abbrev pub si_of : TokenPoint → ℕ
si_of t = t.si

-- each offset is above those before it
abbrev pub StrictlyAscending : List TokenPoint → Type 0
StrictlyAscending [] = Unit
StrictlyAscending (t ∷ ts) = All (λ (u : TokenPoint). t.si < u.si) ts × StrictlyAscending ts

abbrev Distinct : List TokenPoint → Type 0
Distinct [] = Unit
Distinct (t ∷ ts) = All (λ (u : TokenPoint). t.si ≢ u.si) ts × Distinct ts

abbrev BelowMax : List TokenPoint → Type 0
BelowMax = All (λ (t : TokenPoint). t.si < usize_max)

claims_self : (t : TokenPoint) → t.si < usize_max → claims t.si t ≡ true
unfolding saturating_add span
claims_self t h = ground arith

unshadowed-apart :
    (at : TokenPoint) (kept : List TokenPoint)
    → BelowMax kept
    → shadowed at.si kept ≡ false
    → All (λ (u : TokenPoint). u.si ≢ at.si) kept
unshadowed-apart at [] below h = tt
unshadowed-apart at (k ∷ kept) below h = (
  λ e. ground (arith, claims_self k below.0, ap (λ (x : ℕ). claims x k) e),
  unshadowed-apart at kept below.1 (ground arith),
)

Distinct-concat :
    (kept : List TokenPoint) (at : TokenPoint)
    → Distinct kept
    → All (λ (u : TokenPoint). u.si ≢ at.si) kept
    → Distinct (kept ++ at ∷ [])
Distinct-concat [] at d h = (tt, tt)
Distinct-concat (k ∷ kept) at d h = (
  All-append (λ (u : TokenPoint). k.si ≢ u.si) kept (at ∷ []) d.0 (h.0, tt),
  Distinct-concat kept at d.1 h.1,
)

module _ (place : TokenPoint → Option TokenPoint) where
  abbrev Fits : List TokenPoint → Type 0
  Fits = All (λ (event : TokenPoint). (Placed place event).si < usize_max)

  scan-Distinct :
      (events kept : List TokenPoint)
      → Fits events
      → BelowMax kept
      → Distinct kept
      → Distinct (scan place events kept)
  unfolding scan
  scan-Distinct [] kept f b d = d
  scan-Distinct (event ∷ events) kept f b d =
      let at = Placed place event in
      elim (Bool-cases (shadowed at.si kept)) [
        | inl h ↦ rw h (scan-Distinct events kept f.1 b d)
        | inr h ↦ rw h (
            scan-Distinct events (kept ++ at ∷ []) f.1
              (All-append (λ (t : TokenPoint). t.si < usize_max) kept (at ∷ []) b (f.0, tt))
              (Distinct-concat kept at d (unshadowed-apart at kept b h)))
      ]

  scan_keeps :
      (x : ℕ) (events kept : List TokenPoint)
      → shadowed x kept ≡ true
      → shadowed x (scan place events kept) ≡ true
  unfolding scan
  scan_keeps x [] kept h = h
  scan_keeps x (event ∷ events) kept h =
      let at = Placed place event in
      elim (Bool-cases (shadowed at.si kept)) [
        | inl q ↦ rw q (scan_keeps x events kept h)
        | inr q ↦ rw q (
            scan_keeps x events (kept ++ at ∷ [])
              (rw (shadowed-concat x kept at, h) (or_true (claims x at))))
      ]
    where
      or_true : (b : Bool) → (b || true) ≡ true
      or_true true = refl
      or_true false = refl

  scan_skip :
      (event : TokenPoint) (events kept : List TokenPoint)
      → shadowed (Placed place event).si kept ≡ true
      → scan place (event ∷ events) kept ≡ scan place events kept
  unfolding scan
  scan_skip event events kept h = rw h

  scan_keep :
      (event : TokenPoint) (events kept : List TokenPoint)
      → shadowed (Placed place event).si kept ≡ false
      → scan place (event ∷ events) kept ≡ scan place events (kept ++ Placed place event ∷ [])
  unfolding scan
  scan_keep event events kept h = rw h

  abbrev AllShadowed : List TokenPoint → List TokenPoint → Type 0
  AllShadowed events found =
      All (λ (event : TokenPoint). shadowed (Placed place event).si found ≡ true) events

  scan_complete :
      (events kept : List TokenPoint) → Fits events → AllShadowed events (scan place events kept)
  scan_complete [] kept f = tt
  scan_complete (event ∷ events) kept f =
      let at = Placed place event in
      elim (Bool-cases (shadowed at.si kept)) [
        | inl h ↦
            subst (AllShadowed (event ∷ events)) (sym (scan_skip event events kept h))
              (scan_keeps at.si events kept h, scan_complete events kept f.1)
        | inr h ↦ subst (AllShadowed (event ∷ events)) (sym (scan_keep event events kept h)) (
          scan_keeps at.si events (kept ++ at ∷ [])
              (rw (shadowed-concat at.si kept at, claims_self at f.0)),
          scan_complete events (kept ++ at ∷ []) f.1,
        )
      ]

shadowed-insert_sorted :
    (x : ℕ) (t : TokenPoint) (ts : List TokenPoint)
    → shadowed x (insert_sorted (by_key si_of) t ts) ≡ (claims x t || shadowed x ts)
unfolding insert_sorted
shadowed-insert_sorted x t [] = refl
shadowed-insert_sorted x t (u ∷ ts) = elim (Bool-cases (leb t.si u.si)) [
  | inl h ↦ rw h
  | inr h ↦
      rw (h, shadowed-insert_sorted x t ts) (or_swap (claims x u) (claims x t) (shadowed x ts))
]

shadowed-sort : (x : ℕ) (ts : List TokenPoint) → shadowed x (sort (by_key si_of) ts) ≡ shadowed x ts
unfolding sort
shadowed-sort x [] = refl
shadowed-sort x (t ∷ ts) =
    rw (shadowed-insert_sorted x t (sort (by_key si_of) ts), shadowed-sort x ts)

All-insert_sorted {κ} :
    (P : TokenPoint → Type κ) (t : TokenPoint) (ts : List TokenPoint)
    → P t
    → All P ts
    → All P (insert_sorted (by_key si_of) t ts)
unfolding insert_sorted
All-insert_sorted P t [] p h = (p, tt)
All-insert_sorted P t (u ∷ ts) p h = elim (Bool-cases (leb t.si u.si)) [
  | inl q ↦ rw q (p, h)
  | inr q ↦ rw q (h.0, All-insert_sorted P t ts p h.1)
]

All-sort {κ} :
    (P : TokenPoint → Type κ) (ts : List TokenPoint) → All P ts → All P (sort (by_key si_of) ts)
unfolding sort
All-sort P [] h = tt
All-sort P (t ∷ ts) h = All-insert_sorted P t (sort (by_key si_of) ts) h.0 (All-sort P ts h.1)

Distinct-insert_sorted :
    (t : TokenPoint) (ts : List TokenPoint)
    → All (λ (u : TokenPoint). t.si ≢ u.si) ts
    → Distinct ts
    → Distinct (insert_sorted (by_key si_of) t ts)
unfolding insert_sorted
Distinct-insert_sorted t [] p h = (tt, tt)
Distinct-insert_sorted t (u ∷ ts) p h = elim (Bool-cases (leb t.si u.si)) [
  | inl q ↦ rw q (p, h)
  | inr q ↦ rw q (
    All-insert_sorted (λ (v : TokenPoint). u.si ≢ v.si) t ts (λ e. p.0 (sym e)) h.0,
    Distinct-insert_sorted t ts p.1 h.1,
  )
]

Distinct-sort : (ts : List TokenPoint) → Distinct ts → Distinct (sort (by_key si_of) ts)
unfolding sort
Distinct-sort [] h = tt
Distinct-sort (t ∷ ts) h =
    Distinct-insert_sorted t (sort (by_key si_of) ts)
      (All-sort (λ (u : TokenPoint). t.si ≢ u.si) ts h.0) (Distinct-sort ts h.1)

strict_head :
    (t : TokenPoint) (ts : List TokenPoint)
    → All (λ (u : TokenPoint). t.si ≤ u.si) ts
    → All (λ (u : TokenPoint). t.si ≢ u.si) ts
    → All (λ (u : TokenPoint). t.si < u.si) ts
strict_head t [] a d = tt
strict_head t (u ∷ ts) a d = (let le = a.0 in let ne = d.0 in omega arith, strict_head t ts a.1 d.1)

strict : (ts : List TokenPoint) → IsAscending si_of ts → Distinct ts → StrictlyAscending ts
strict [] a d = tt
strict (t ∷ ts) a d = (strict_head t ts a.0 d.0, strict ts a.1 d.1)

All-le-max :
    (place : TokenPoint → Option TokenPoint) (events : List TokenPoint)
    → All (λ (event : TokenPoint). (Placed place event).si < usize_max) events
    → All (λ (event : TokenPoint). (Placed place event).si ≤ usize_max) events
All-le-max place [] h = tt
All-le-max place (event ∷ events) h = (let below = h.0 in omega arith, All-le-max place events h.1)

-- A reconciled trace whose offsets are below the greatest `usize` has its tokens at strictly
-- rising offsets, and every event's offset lies in the span of a token that is kept.
pub reconcile_placed_lem :
    (events : List TokenPoint) (place : TokenPoint → Option TokenPoint)
    → All (λ (event : TokenPoint). (Placed place event).si < usize_max) events
    → StrictlyAscending (reconcile_placed events place)
      × All
          (λ (event : TokenPoint).
            shadowed (Placed place event).si (reconcile_placed events place) ≡ true)
          events
reconcile_placed_lem events place fits =
    let found = scan place (reverse events) [] in
    let fits' =
      All-reverse (λ (event : TokenPoint). (Placed place event).si < usize_max) events fits in
    let complete =
      All-reverse (λ (event : TokenPoint). shadowed (Placed place event).si found ≡ true)
        (reverse events) (scan_complete place (reverse events) [] fits') in
    rw (reconcile_placed-scan events place (All-le-max place events fits)) (
      strict (sort (by_key si_of) found) (sort-IsAscending si_of found)
          (Distinct-sort found (scan-Distinct place (reverse events) [] fits' tt tt)),
      simp shadowed-sort (rw reverse-reverse at complete),
    )
