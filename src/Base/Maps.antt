-- ===== src/Base/Maps.antt =====
-- A hash map as its entries, the key of each once, under a test of equality on keys.
use mathlib.Core.Path.{◌≡◌, refl, ap, ◌∙◌}
use mathlib.Core.Logic.{inl, inr}
use mathlib.Core.Bool.{Bool, true, false}
use mathlib.Core.Option.{Option, none, some}
use mathlib.Core.List.{List, [], ◌∷◌}
use package.lsp.Base.Tests.{if◌then◌else◌, Bool-cases}

module _ {K V : Type 0} (same : K → K → Bool) where
  unfoldable pub lookup : K → List (K × V) → Option V
  lookup k [] = none
  lookup k ((k', v) ∷ m) = if same k' k then some v else lookup k m

  unfoldable pub erase : K → List (K × V) → List (K × V)
  erase k [] = []
  erase k ((k', v) ∷ m) = if same k' k then erase k m else (k', v) ∷ erase k m

  unfoldable pub put : K → V → List (K × V) → List (K × V)
  put k v m = (k, v) ∷ erase k m

  pub lookup-erase_same : (k : K) (m : List (K × V)) → lookup k (erase k m) ≡ none
  unfolding lookup erase
  lookup-erase_same k [] = refl
  lookup-erase_same k ((k', v) ∷ m) = elim (Bool-cases (same k' k)) [
    | inl h ↦ rw h (lookup-erase_same k m)
    | inr h ↦ rw (h, h) (lookup-erase_same k m)
  ]

  module _ (sound : (a b : K) → same a b ≡ true → a ≡ b)
      (reflexive : (a : K) → same a a ≡ true) where
    pub lookup-put_same : (k : K) (v : V) (m : List (K × V)) → lookup k (put k v m) ≡ some v
    unfolding lookup put
    lookup-put_same k v m = rw (reflexive k) refl

    pub lookup-erase_other :
        (k k' : K) (m : List (K × V)) → same k k' ≡ false → lookup k' (erase k m) ≡ lookup k' m
    unfolding lookup erase
    lookup-erase_other k k' [] apart = refl
    lookup-erase_other k k' ((j, v) ∷ m) apart = elim (Bool-cases (same j k)) [
      | inl h ↦
          let e : same j k' ≡ false = ap (λ (i : K). same i k') (sound j k h) ∙ apart in
          rw (h, e) (lookup-erase_other k k' m apart)
      | inr h ↦ rw h (
          ap (λ (found : Option V). if same j k' then some v else found)
            (lookup-erase_other k k' m apart))
    ]

    pub lookup-put_other :
        (k k' : K) (v : V) (m : List (K × V))
        → same k k' ≡ false
        → lookup k' (put k v m) ≡ lookup k' m
    unfolding lookup put
    lookup-put_other k k' v m apart = rw apart (lookup-erase_other k k' m apart)
