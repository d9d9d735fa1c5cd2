-- ===== src/Base/Sort.antt =====
-- The library's stable sort, as insertion: an item goes before the first that it may precede, and items are
-- inserted from the last to the first, so equal ones keep their order.
use Prim.Native.Nat.{ℕ, ◌≤◌}
use mathlib.Core.Path.{◌≡◌, refl}
use mathlib.Core.Logic.{inl, inr}
use mathlib.Core.Bool.{Bool}
use mathlib.Core.List.{List, [], ◌∷◌, Perm}
use mathlib.Core.List.Perm
use native.Mathlib.Omega.{arith}
use package.lsp.Base.Tests.{if◌then◌else◌, Bool-cases, leb}
use package.lsp.Base.Lists.{All}

module _ {A : Type 0} (may_precede : A → A → Bool) where
  unfoldable pub insert_sorted : A → List A → List A
  insert_sorted x [] = x ∷ []
  insert_sorted x (y ∷ ys) = if may_precede x y then x ∷ y ∷ ys else y ∷ insert_sorted x ys

  unfoldable pub sort : List A → List A
  unfolding insert_sorted
  sort [] = []
  sort (x ∷ xs) = insert_sorted x (sort xs)

  insert_sorted-perm : (x : A) (ys : List A) → Perm (insert_sorted x ys) (x ∷ ys)
  unfolding insert_sorted
  insert_sorted-perm x [] = Perm.refl (x ∷ [])
  insert_sorted-perm x (y ∷ ys) = elim (Bool-cases (may_precede x y)) [
    | inl h ↦ rw h (Perm.refl (x ∷ y ∷ ys))
    | inr h ↦ rw h (Perm.trans (Perm.cons y (insert_sorted-perm x ys)) (Perm.swap x y ys))
  ]

  pub sort-perm : (xs : List A) → Perm (sort xs) xs
  unfolding sort
  sort-perm [] = Perm.refl []
  sort-perm (x ∷ xs) = Perm.trans (insert_sorted-perm x (sort xs)) (Perm.cons x (sort-perm xs))

module _ {A : Type 0} (key : A → ℕ) where
  -- no key falls
  abbrev pub IsAscending : List A → Type 0
  IsAscending [] = Unit
  IsAscending (x ∷ xs) = All (λ y. key x ≤ key y) xs × IsAscending xs

  abbrev pub by_key : A → A → Bool
  by_key x y = leb (key x) (key y)

  All-le : (n m : ℕ) (xs : List A) → n ≤ m → All (λ y. m ≤ key y) xs → All (λ y. n ≤ key y) xs
  All-le n m [] h all = tt
  All-le n m (x ∷ xs) h all = (omega arith, All-le n m xs h all.1)

  All-insert_sorted :
      (n : ℕ) (x : A) (ys : List A)
      → n ≤ key x
      → All (λ y. n ≤ key y) ys
      → All (λ y. n ≤ key y) (insert_sorted by_key x ys)
  unfolding insert_sorted
  All-insert_sorted n x [] h all = (h, tt)
  All-insert_sorted n x (y ∷ ys) h all = elim (Bool-cases (leb (key x) (key y))) [
    | inl e ↦ rw e (h, all)
    | inr e ↦ rw e (all.0, All-insert_sorted n x ys h all.1)
  ]

  insert_sorted-IsAscending :
      (x : A) (ys : List A) → IsAscending ys → IsAscending (insert_sorted by_key x ys)
  unfolding insert_sorted
  insert_sorted-IsAscending x [] h = (tt, tt)
  insert_sorted-IsAscending x (y ∷ ys) h = elim (Bool-cases (leb (key x) (key y))) [
    | inl e ↦ rw e ((ground arith, All-le (key x) (key y) ys (ground arith) h.0), h)
    | inr e ↦
        rw e (All-insert_sorted (key y) x ys (ground arith) h.0, insert_sorted-IsAscending x ys h.1)
  ]

  pub sort-IsAscending : (xs : List A) → IsAscending (sort by_key xs)
  unfolding sort
  sort-IsAscending [] = tt
  sort-IsAscending (x ∷ xs) = insert_sorted-IsAscending x (sort by_key xs) (sort-IsAscending xs)

  insert_sorted_first :
      (x : A) (ys : List A) → All (λ y. key x ≤ key y) ys → insert_sorted by_key x ys ≡ x ∷ ys
  unfolding insert_sorted
  insert_sorted_first x [] h = refl
  insert_sorted_first x (y ∷ ys) h = ground (arith, h.0)

  -- A list in order is left as it is.
  pub sort_of_IsAscending : (xs : List A) → IsAscending xs → sort by_key xs ≡ xs
  unfolding sort
  sort_of_IsAscending [] h = refl
  sort_of_IsAscending (x ∷ xs) h = rw (sort_of_IsAscending xs h.1) (insert_sorted_first x xs h.0)
