-- ===== src/Registry/Search.antt =====
-- Lists that fall by a measure, what `find` finds in them, and what `filter` and `sort` keep.
use lsp.Base.{
  ℕ, ◌≤◌, ◌≡◌, sym, ap, ◌∙◌, subst, Bool, true, false, Bool-cases, inl, inr, none, some, List, [],
  ◌∷◌, ◌++◌, leb, if◌then◌else◌, filter, find, arith, All, All-append,
}
use lsp.Base.Sort.{sort, insert_sorted}

module _ {A : Type 0} where
  -- a measure that never rises along the list
  abbrev pub IsFalling : (A → ℕ) → List A → Type 0
  IsFalling f [] = Unit
  IsFalling f (x ∷ xs) = All (λ y. f y ≤ f x) xs × IsFalling f xs

  All-le :
      (f : A → ℕ) (n m : ℕ) (xs : List A) → n ≤ m → All (λ y. f y ≤ n) xs → All (λ y. f y ≤ m) xs
  All-le f n m [] h all = tt
  All-le f n m (x ∷ xs) h all = (let first = all.0 in omega arith, All-le f n m xs h all.1)

  pub IsFalling-append :
      (f : A → ℕ) (k : ℕ) (xs ys : List A)
      → IsFalling f xs
      → IsFalling f ys
      → All (λ x. k ≤ f x) xs
      → All (λ y. f y ≤ k) ys
      → IsFalling f (xs ++ ys)
  IsFalling-append f k [] ys hx hy above below = hy
  IsFalling-append f k (x ∷ xs) ys hx hy above below = (
    All-append (λ y. f y ≤ f x) xs ys hx.0 (All-le f k (f x) ys above.0 below),
    IsFalling-append f k xs ys hx.1 hy above.1 below,
  )

  pub const-IsFalling : (f : A → ℕ) (k : ℕ) (xs : List A) → All (λ x. f x ≡ k) xs → IsFalling f xs
  const-IsFalling f k [] h = tt
  const-IsFalling f k (x ∷ xs) h = (below k xs (omega (arith, h.0)) h.1, const-IsFalling f k xs h.1)
    where
      below : (n : ℕ) (ys : List A) → n ≤ f x → All (λ y. f y ≡ n) ys → All (λ y. f y ≤ f x) ys
      below n [] le h = tt
      below n (y ∷ ys) le h = (omega (arith, h.0), below n ys le h.1)

  pub find-All :
      (P : A → Type 0) (p : A → Bool) (xs : List A) (x : A)
      → find p xs ≡ some x
      → All P xs
      → (p x ≡ true) × P x
  unfolding find
  find-All P p [] x e all = cc
  find-All P p (y ∷ ys) x e all = elim (Bool-cases (p y)) [
    | inl t ↦
        let same : some y ≡ some x = rw t at e in
        let y-x : y ≡ x = cc in (ap p (sym y-x) ∙ t, subst P y-x all.0)
    | inr t ↦ find-All P p ys x (rw t at e) all.1
  ]

  -- The first item that passes a test is the greatest of those that pass.
  pub find-greatest :
      (p : A → Bool) (f : A → ℕ) (xs : List A) (x : A)
      → IsFalling f xs
      → find p xs ≡ some x
      → All (λ y. (if p y then f y else 0) ≤ f x) xs
  unfolding find
  find-greatest p f [] x h e = tt
  find-greatest p f (y ∷ ys) x h e = elim (Bool-cases (p y)) [
    | inl t ↦
        let same : some y ≡ some x = rw t at e in
        let y-x : f y ≡ f x = (let z : y ≡ x = cc in ap f z) in
        (rw t (omega (arith, y-x)), rest ys (omega (arith, y-x)) h.0)
    | inr t ↦ (rw t (omega arith), find-greatest p f ys x h.1 (rw t at e))
  ]
    where
      rest :
          (zs : List A)
          → f y ≤ f x
          → All (λ z. f z ≤ f y) zs
          → All (λ z. (if p z then f z else 0) ≤ f x) zs
      rest [] le all = tt
      rest (z ∷ zs) le all = (
        elim (Bool-cases (p z)) [
          | inl t ↦ rw t (let first = all.0 in omega arith)
          | inr t ↦ rw t (omega arith)
        ],
        rest zs le all.1,
      )

  pub no_find : (p : A → Bool) (xs : List A) → find p xs ≡ none → All (λ y. p y ≡ false) xs
  unfolding find
  no_find p [] e = tt
  no_find p (y ∷ ys) e = elim (Bool-cases (p y)) [
    | inl t ↦ let clash : some y ≡ none = rw t at e in cc
    | inr t ↦ (t, no_find p ys (rw t at e))
  ]

  pub All-filter :
      (P : A → Type 0) (p : A → Bool) (xs : List A)
      → ((x : A) → p x ≡ true → P x)
      → All P (filter p xs)
  unfolding filter
  All-filter P p [] h = tt
  All-filter P p (x ∷ xs) h = elim (Bool-cases (p x)) [
    | inl t ↦ rw t (h x t, All-filter P p xs h)
    | inr t ↦ rw t (All-filter P p xs h)
  ]

  pub All-map-filter :
      (P : A → Type 0) (p : A → Bool) (xs : List A) → All P xs → All P (filter p xs)
  unfolding filter
  All-map-filter P p [] h = tt
  All-map-filter P p (x ∷ xs) h = elim (Bool-cases (p x)) [
    | inl t ↦ rw t (h.0, All-map-filter P p xs h.1)
    | inr t ↦ rw t (All-map-filter P p xs h.1)
  ]

  module _ (before : A → A → Bool) (P : A → Type 0) where
    All-insert_sorted : (x : A) (ys : List A) → P x → All P ys → All P (insert_sorted before x ys)
    unfolding insert_sorted
    All-insert_sorted x [] px all = (px, tt)
    All-insert_sorted x (y ∷ ys) px all = elim (Bool-cases (before x y)) [
      | inl t ↦ rw t (px, all)
      | inr t ↦ rw t (all.0, All-insert_sorted x ys px all.1)
    ]

    pub All-sort : (xs : List A) → All P xs → All P (sort before xs)
    unfolding sort
    All-sort [] all = tt
    All-sort (x ∷ xs) all = All-insert_sorted x (sort before xs) all.0 (All-sort xs all.1)

    insert_sorted-All : (x : A) (ys : List A) → All P (insert_sorted before x ys) → P x × All P ys
    unfolding insert_sorted
    insert_sorted-All x [] all = all
    insert_sorted-All x (y ∷ ys) all = elim (Bool-cases (before x y)) [
      | inl t ↦ rw t at all
      | inr t ↦
          let (py, rest) : P y × All P (insert_sorted before x ys) = rw t at all in
          let (px, kept) = insert_sorted-All x ys rest in (px, (py, kept))
    ]

    pub sort-All : (xs : List A) → All P (sort before xs) → All P xs
    unfolding sort
    sort-All [] all = tt
    sort-All (x ∷ xs) all =
        let (px, rest) = insert_sorted-All x (sort before xs) all in (px, sort-All xs rest)

module _ {A : Type 0} (f : A → ℕ) where
  abbrev pub falling : A → A → Bool
  falling x y = leb (f y) (f x)

  insert_sorted-IsFalling :
      (x : A) (ys : List A) → IsFalling f ys → IsFalling f (insert_sorted falling x ys)
  unfolding insert_sorted
  insert_sorted-IsFalling x [] h = (tt, tt)
  insert_sorted-IsFalling x (y ∷ ys) h = elim (Bool-cases (leb (f y) (f x))) [
    | inl e ↦ rw e ((ground arith, All-le f (f y) (f x) ys (ground arith) h.0), h)
    | inr e ↦ rw e (
      All-insert_sorted falling (λ z. f z ≤ f y) x ys (ground arith) h.0,
      insert_sorted-IsFalling x ys h.1,
    )
  ]

  pub sort-IsFalling : (xs : List A) → IsFalling f (sort falling xs)
  unfolding sort
  sort-IsFalling [] = tt
  sort-IsFalling (x ∷ xs) = insert_sorted-IsFalling x (sort falling xs) (sort-IsFalling xs)
