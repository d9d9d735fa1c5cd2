-- ===== src/Registry/Tiers.antt =====
-- registry.rs: the index of the global tier, and the entry that it finds.
use lsp.Base.{
  ℕ, zero, suc, ◌≡◌, refl, sym, ap, ◌∙◌, true, false, Bool-cases, inl, inr, Option, none, some,
  List, [], ◌∷◌, ◌++◌, ◌==◌, if◌then◌else◌, length, get_elem?, set, arith,
}
use lsp.Base.Text.{Text, text_eq, text_eq_sound, text_eq_reflexive}
use lsp.Base.Maps.{lookup, put, lookup-put_same, lookup-put_other}
use lsp.Registry.Entries.{Entry, language_id}
use lsp.Registry.Router.{
  Router, put_global_at, put_global, put_all, new_router, entry_at, global_entry,
}

module _ {A : Type 0} where
  get_elem?-set_self :
      (xs : List A) (i : ℕ) (v old : A)
      → get_elem? xs i ≡ some old
      → get_elem? (set xs i v) i ≡ some v
  get_elem?-set_self [] i v old h = cc
  get_elem?-set_self (x ∷ xs) zero v old h = refl
  get_elem?-set_self (x ∷ xs) (suc i) v old h = get_elem?-set_self xs i v old h

  get_elem?-set_other :
      (xs : List A) (i j : ℕ) (v : A) → (i == j) ≡ false → get_elem? (set xs i v) j ≡ get_elem? xs j
  get_elem?-set_other [] i j v h = refl
  get_elem?-set_other (x ∷ xs) zero zero v h = cc
  get_elem?-set_other (x ∷ xs) zero (suc j) v h = refl
  get_elem?-set_other (x ∷ xs) (suc i) zero v h = refl
  get_elem?-set_other (x ∷ xs) (suc i) (suc j) v h = get_elem?-set_other xs i j v (ground arith)

  get_elem?-append_last : (xs : List A) (v : A) → get_elem? (xs ++ v ∷ []) (length xs) ≡ some v
  get_elem?-append_last [] v = refl
  get_elem?-append_last (x ∷ xs) v = get_elem?-append_last xs v

  get_elem?-append_old :
      (xs ys : List A) (i : ℕ) (old : A)
      → get_elem? xs i ≡ some old
      → get_elem? (xs ++ ys) i ≡ some old
  get_elem?-append_old [] ys i old h = cc
  get_elem?-append_old (x ∷ xs) ys zero old h = h
  get_elem?-append_old (x ∷ xs) ys (suc i) old h = get_elem?-append_old xs ys i old h

-- equality of texts, under the test
text_eq-swap : (a b c : Text) → text_eq a b ≡ true → text_eq a c ≡ false → text_eq b c ≡ false
text_eq-swap a b c same apart =
    ap (λ (t : Text). text_eq t c) (sym (text_eq_sound a b same)) ∙ apart

lookup_same :
    (a b : Text) (m : List (Text × ℕ))
    → text_eq a b ≡ true
    → lookup text_eq b m ≡ lookup text_eq a m
lookup_same a b m same = ap (λ (t : Text). lookup text_eq t m) (sym (text_eq_sound a b same))

some-eq : (a b : ℕ) → some a ≡ some b → a ≡ b
some-eq a b h = cc

module _ {Value : Type 0} where
  -- an indexed place holds an entry with the language id that it is indexed under
  abbrev Holds : List (Entry Value) → Text → ℕ → Type 0
  Holds entries id i =
      (e : Entry Value) × (get_elem? entries i ≡ some e) × (text_eq (language_id e) id ≡ true)

  abbrev pub IsIndexed : Router Value → Type 0
  IsIndexed r = (id : Text) (i : ℕ) → lookup text_eq id r.by_id ≡ some i → Holds r.global id i

  -- two ids that differ are indexed at two places
  apart_places :
      (entries : List (Entry Value)) (a b : Text) (i j : ℕ)
      → Holds entries a i
      → Holds entries b j
      → text_eq a b ≡ false
      → (i == j) ≡ false
  apart_places entries a b i j (e, at, same) (d, at', same') apart = elim (Bool-cases (i == j)) [
    | inl h ↦
        let places : i ≡ j = ground arith in
        let entry : some e ≡ some d = sym at ∙ ap (λ (k : ℕ). get_elem? entries k) places ∙ at' in
        let e-d : e ≡ d = cc in
        let clash : text_eq (language_id e) b ≡ false =
          ap (λ (t : Text). text_eq t b) (text_eq_sound _ _ same) ∙ apart in
        let agree : text_eq (language_id e) b ≡ true =
          ap (λ (x : Entry Value). text_eq (language_id x) b) e-d ∙ same' in
        absurd (differ (sym agree ∙ clash))
    | inr h ↦ h
  ]
    where
      differ : true ≡ false → ⊥
      differ h = cc

  -- an entry replaced where its id is indexed
  entry_at-set_other :
      (r : Router Value) (e : Entry Value) (index : ℕ) (id : Text) (o : Option ℕ)
      → IsIndexed r
      → lookup text_eq (language_id e) r.by_id ≡ some index
      → text_eq (language_id e) id ≡ false
      → lookup text_eq id r.by_id ≡ o
      → entry_at (set r.global index e) o ≡ entry_at r.global o
  entry_at-set_other r e index id none indexed at apart h = refl
  entry_at-set_other r e index id (some j) indexed at apart h =
      get_elem?-set_other r.global index j e (
        apart_places r.global (language_id e) id index j (indexed (language_id e) index at)
          (indexed id j h) apart)

  -- an entry put behind the others
  entry_at-append :
      (r : Router Value) (e : Entry Value) (id : Text) (o : Option ℕ)
      → IsIndexed r
      → lookup text_eq id r.by_id ≡ o
      → entry_at (r.global ++ e ∷ []) o ≡ entry_at r.global o
  entry_at-append r e id none indexed h = refl
  entry_at-append r e id (some j) indexed h =
      let (d, at, same) = indexed id j h in get_elem?-append_old r.global (e ∷ []) j d at ∙ sym at

  entry-put_global_at :
      (r : Router Value) (e : Entry Value) (id : Text) (o : Option ℕ)
      → IsIndexed r
      → lookup text_eq (language_id e) r.by_id ≡ o
      → global_entry (put_global_at o r e) id
        ≡ (if text_eq (language_id e) id then some e else global_entry r id)
  unfolding global_entry put_global_at
  entry-put_global_at r e id (some index) indexed at =
      elim (Bool-cases (text_eq (language_id e) id)) [
        | inl same ↦
            let (d, old, named) = indexed (language_id e) index at in
            rw (same, lookup_same (language_id e) id r.by_id same, at)
              (get_elem?-set_self r.global index e d old)
        | inr apart ↦
            rw apart
              (entry_at-set_other r e index id (lookup text_eq id r.by_id) indexed at apart refl)
      ]
  entry-put_global_at r e id none indexed at = elim (Bool-cases (text_eq (language_id e) id)) [
    | inl same ↦
        rw
          (
            same,
            lookup_same (language_id e) id (put text_eq (language_id e) (length r.global) r.by_id)
                same,
            lookup-put_same text_eq text_eq_sound text_eq_reflexive (language_id e)
                (length r.global) r.by_id,
          )
          (get_elem?-append_last r.global e)
    | inr apart ↦
        rw
          (
            apart,
            lookup-put_other text_eq text_eq_sound text_eq_reflexive (language_id e) id
                (length r.global) r.by_id apart,
          )
          (entry_at-append r e id (lookup text_eq id r.by_id) indexed refl)
  ]

  put_global_at-IsIndexed :
      (r : Router Value) (e : Entry Value) (o : Option ℕ)
      → IsIndexed r
      → lookup text_eq (language_id e) r.by_id ≡ o
      → IsIndexed (put_global_at o r e)
  unfolding put_global_at
  put_global_at-IsIndexed r e (some index) indexed at id i h =
      elim (Bool-cases (text_eq (language_id e) id)) [
        | inl same ↦
            let place : index ≡ i =
              some-eq index i (sym at ∙ sym (lookup_same (language_id e) id r.by_id same) ∙ h) in
            let (d, old, named) = indexed (language_id e) index at in
            (
              e,
              ap (λ (k : ℕ). get_elem? (set r.global index e) k) (sym place)
                  ∙ get_elem?-set_self r.global index e d old,
              same,
            )
        | inr apart ↦
            let (d, old, named) = indexed id i h in
            (
              d,
              get_elem?-set_other r.global index i e (
                    apart_places r.global (language_id e) id index i
                      (indexed (language_id e) index at) (d, old, named) apart)
                  ∙ old,
              named,
            )
      ]
  put_global_at-IsIndexed r e none indexed at id i h =
      elim (Bool-cases (text_eq (language_id e) id)) [
        | inl same ↦
            let place : length r.global ≡ i = some-eq (length r.global) i (
              sym (
                lookup-put_same text_eq text_eq_sound text_eq_reflexive (language_id e)
                  (length r.global) r.by_id)
              ∙ sym (
                  lookup_same (language_id e) id
                    (put text_eq (language_id e) (length r.global) r.by_id) same)
              ∙ h) in
            (
              e,
              ap (λ (k : ℕ). get_elem? (r.global ++ e ∷ []) k) (sym place)
                  ∙ get_elem?-append_last r.global e,
              same,
            )
        | inr apart ↦
            let (d, old, named) = indexed id i (
              sym (
                lookup-put_other text_eq text_eq_sound text_eq_reflexive (language_id e) id
                  (length r.global) r.by_id apart)
              ∙ h) in
            (d, get_elem?-append_old r.global (e ∷ []) i d old, named)
      ]

  -- the last of the entries with an id, or else the one given
  unfoldable pub last_with : Text → List (Entry Value) → Option (Entry Value) → Option (Entry Value)
  last_with id [] otherwise = otherwise
  last_with id (e ∷ es) otherwise =
      last_with id es (if text_eq (language_id e) id then some e else otherwise)

  entry-put_all :
      (r : Router Value) (es : List (Entry Value)) (id : Text)
      → IsIndexed r
      → (global_entry (put_all r es) id ≡ last_with id es (global_entry r id))
        × IsIndexed (put_all r es)
  unfolding put_all last_with put_global
  entry-put_all r [] id indexed = (refl, indexed)
  entry-put_all r (e ∷ es) id indexed =
      let (found, kept) =
        entry-put_all (put_global r e) es id
          (put_global_at-IsIndexed r e (lookup text_eq (language_id e) r.by_id) indexed refl) in
      (
        found
            ∙ ap (last_with id es)
                (entry-put_global_at r e id (lookup text_eq (language_id e) r.by_id) indexed refl),
        kept,
      )

  -- A new router answers a language id with the last entry of the bundled and then the user tier
  -- that has it, and every place that its index names holds an entry with the id that names it.
  pub new_router-last_with :
      (bundled workspace user : List (Entry Value)) (id : Text)
      → (global_entry (new_router bundled workspace user) id ≡ last_with id (bundled ++ user) none)
        × IsIndexed (new_router bundled workspace user)
  unfolding new_router global_entry lookup
  new_router-last_with bundled workspace user id =
      entry-put_all (record { global = []; by_id = []; workspace = workspace }) (bundled ++ user) id
        (λ id i h. absurd (none-not-some i h))
    where
      none-not-some : (i : ℕ) → none ≡ some i → ⊥
      none-not-some i h = cc
