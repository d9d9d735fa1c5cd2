-- ===== src/Trace/Reference.antt =====
-- trace.rs: the reconciliation against the scan of every kept token's span.
use mathlib.Core.List.{reverse-cons}
use lsp.Base.{
  ℕ, ◌≤◌, ◌≡◌, refl, sym, ◌∙◌, ap, ap₂, All-append, Bool, false, ◌||◌, Option, if◌then◌else◌, arith,
  List, [], ◌∷◌, ◌++◌, reverse, All,
}
use lsp.Base.Sort.{sort, by_key}
use lsp.Base.Text.{usize_max, saturating_add}
use lsp.Types.{TokenPoint}
use lsp.Trace.{Spans, span, claim, unwrap_or, reconcile_loop, reconcile_placed}
use lsp.Trace.Claims.{inside, covered, IsGapped, reaches_past-covered}
use lsp.Trace.Union.{claim-union}

-- the offsets that a kept token shadows
abbrev pub claims : ℕ → TokenPoint → Bool
claims x t = inside x t.si (saturating_add t.si (span t))

abbrev pub shadowed : ℕ → List TokenPoint → Bool
shadowed x [] = false
shadowed x (t ∷ kept) = claims x t || shadowed x kept

-- From the newest event on, each is kept unless a kept token's span holds its offset.
unfoldable pub scan :
    (TokenPoint → Option TokenPoint) → List TokenPoint → List TokenPoint → List TokenPoint
scan place [] kept = kept
scan place (event ∷ events) kept =
    let at = unwrap_or (place event) event in
    let skip = scan place events kept in
    let keep = scan place events (kept ++ at ∷ []) in if shadowed at.si kept then skip else keep

pub shadowed-concat :
    (x : ℕ) (kept : List TokenPoint) (t : TokenPoint)
    → shadowed x (kept ++ t ∷ []) ≡ (claims x t || shadowed x kept)
shadowed-concat x [] t = refl
shadowed-concat x (k ∷ kept) t = ground (arith, shadowed-concat x kept t)

saturated : (t : TokenPoint) → t.si ≤ usize_max → t.si ≤ saturating_add t.si (span t)
unfolding saturating_add
saturated t h = omega arith

abbrev pub Placed : (TokenPoint → Option TokenPoint) → TokenPoint → TokenPoint
Placed place event = unwrap_or (place event) event

reconcile_loop-scan :
    (place : TokenPoint → Option TokenPoint) (events : List TokenPoint) (claimed : Spans)
    (kept : List TokenPoint)
    → All (λ (event : TokenPoint). (unwrap_or (place event) event).si ≤ usize_max) events
    → IsGapped claimed
    → ((x : ℕ) → covered x claimed ≡ shadowed x kept)
    → reconcile_loop place events claimed kept ≡ scan place events kept
unfolding reconcile_loop scan
reconcile_loop-scan place [] claimed kept fits g same = refl
reconcile_loop-scan place (event ∷ events) claimed kept fits g same =
    let at = unwrap_or (place event) event in
    let end = saturating_add at.si (span at) in
    let decides = reaches_past-covered at.si claimed g ∙ same at.si in
    let claimed' = claim-union claimed at.si end g (saturated at fits.0) in
    rw decides (
      ap₂ (λ (x y : List TokenPoint). if shadowed at.si kept then x else y)
        (reconcile_loop-scan place events claimed kept fits.1 g same)
        (reconcile_loop-scan place events (claim claimed at.si end) (kept ++ at ∷ []) fits.1
          claimed'.0
          (λ x.
            claimed'.1 x
            ∙ ap (λ (b : Bool). claims x at || b) (same x)
            ∙ sym (shadowed-concat x kept at))))

pub All-reverse {κ} : {A : Type 0} (P : A → Type κ) (xs : List A) → All P xs → All P (reverse xs)
All-reverse P [] h = tt
All-reverse P (x ∷ xs) h =
    rw (reverse-cons x xs) (All-append P (reverse xs) (x ∷ []) (All-reverse P xs h.1) (h.0, tt))

-- Reconciling a trace, where the placed offsets are machine integers, is the scan of all kept
-- tokens' spans from the newest event on, sorted by offset: the disjoint intervals of `claim`
-- shadow what those spans do.
pub reconcile_placed-scan :
    (events : List TokenPoint) (place : TokenPoint → Option TokenPoint)
    → All (λ (event : TokenPoint). (Placed place event).si ≤ usize_max) events
    → reconcile_placed events place
      ≡ sort (by_key (λ (t : TokenPoint). t.si)) (scan place (reverse events) [])
unfolding reconcile_placed
reconcile_placed-scan events place fits = ap (sort (by_key (λ (t : TokenPoint). t.si))) (
    reconcile_loop-scan place (reverse events) [] []
      (All-reverse (λ (event : TokenPoint). (Placed place event).si ≤ usize_max) events fits) tt
      (λ x. refl))
