-- ===== src/Registry/Precedence.antt =====
-- registry.rs: the order of `candidates`, which puts the most specific workspace entry first.
use lsp.Base.{
  ℕ, ◌≤◌, ◌≡◌, refl, sym, subst, Bool, true, false, ◌&&◌, Bool-cases, Option-cases, inl, inr,
  Option, none, some, List, [], ◌∷◌, ◌++◌, map, if◌then◌else◌, filter, find, arith, All, All-append,
}
use lsp.Base.Sort.{sort}
use lsp.Base.Text.{Text}
use lsp.Registry.Search.{
  IsFalling, IsFalling-append, const-IsFalling, find-All, find-greatest, no_find, All-filter,
  All-map-filter, All-sort, sort-All, falling, sort-IsFalling,
}
use lsp.Registry.Paths.{contains_path}
use lsp.Registry.Entries.{Entry, is_routable, scope_of}
use lsp.Registry.Router.{Router, candidates, scoped_in, measured, is_unscoped}
use lsp.Registry.Ranks.{
  specificity, rank, Measured, scoped_in-Measured, Measured-IsFalling, of_pair, All-of_pair,
  of_pair-All, All-split, unscoped-rank,
}

module _ {Value : Type 0} (fs_path : Option Text) where
  module _ (r : Router Value) where
    usable : List (Entry Value)
    usable = filter is_routable r.workspace

    found_in : List (Entry Value × ℕ)
    found_in =
        sort (falling (λ (p : Entry Value × ℕ). p.1))
          (scoped_in fs_path (filter is_routable r.workspace))

    everywhere : List (Entry Value)
    everywhere =
        filter (λ (e : Entry Value). is_unscoped (scope_of e)) (filter is_routable r.workspace)

    candidates-parts : candidates r fs_path ≡ map of_pair found_in ++ everywhere
    unfolding candidates found_in everywhere
    candidates-parts = refl

    found_in-rank :
        IsFalling (rank fs_path) (map of_pair found_in)
        × All (λ e. 2 ≤ (rank fs_path) e) (map of_pair found_in)
    unfolding found_in
    found_in-rank =
        (Measured-IsFalling fs_path) found_in
          (All-sort (falling (λ (p : Entry Value × ℕ). p.1)) (Measured fs_path)
            (scoped_in fs_path (filter is_routable r.workspace))
            ((scoped_in-Measured fs_path) fs_path (filter is_routable r.workspace) refl))
          (sort-IsFalling (λ (p : Entry Value × ℕ). p.1)
            (scoped_in fs_path (filter is_routable r.workspace)))

    everywhere-rank : All (λ e. (rank fs_path) e ≡ 1) everywhere
    unfolding everywhere
    everywhere-rank =
        All-filter (λ e. (rank fs_path) e ≡ 1) (λ (e : Entry Value). is_unscoped (scope_of e))
          (filter is_routable r.workspace) (unscoped-rank fs_path)

    weaken :
        (P Q : Entry Value → Type 0) (es : List (Entry Value))
        → ((e : Entry Value) → P e → Q e)
        → All P es
        → All Q es
    weaken P Q [] f h = tt
    weaken P Q (e ∷ es) f h = (f e h.0, weaken P Q es f h.1)

    -- The candidates stand in the order of their ranks.
    pub candidates-IsFalling : IsFalling (rank fs_path) (candidates r fs_path)
    candidates-IsFalling =
        subst (λ (es : List (Entry Value)). IsFalling (rank fs_path) es) (sym candidates-parts)
          (IsFalling-append (rank fs_path) 1 (map of_pair found_in) everywhere found_in-rank.0
            (const-IsFalling (rank fs_path) 1 everywhere everywhere-rank)
            (weaken (λ e. 2 ≤ (rank fs_path) e) (λ e. 1 ≤ (rank fs_path) e) (map of_pair found_in)
              (λ e h. omega arith) found_in-rank.1)
            (weaken (λ e. (rank fs_path) e ≡ 1) (λ e. (rank fs_path) e ≤ 1) everywhere
              (λ e h. omega arith) everywhere-rank))

    scoped_in-All :
        (P : Entry Value → Type 0) (o : Option Text) (es : List (Entry Value))
        → All P es
        → All (λ p. P (of_pair p)) (scoped_in o es)
    unfolding scoped_in
    scoped_in-All P none es h = tt
    scoped_in-All P (some path) [] h = tt
    scoped_in-All P (some path) (e ∷ es) h =
        All-append (λ p. P (of_pair p)) (measured (scope_of e) path e) (scoped_in (some path) es)
          (one (scope_of e)) (scoped_in-All P (some path) es h.1)
      where
        one : (scope : Option Text) → All (λ p. P (of_pair p)) (measured scope path e)
        one none = tt
        one (some scope) = elim (Bool-cases (contains_path scope path)) [
          | inl t ↦ rw t (h.0, tt)
          | inr t ↦ rw t tt
        ]

    -- What holds of the routable workspace entries holds of the candidates.
    pub candidates-All :
        (P : Entry Value → Type 0)
        → All P (filter is_routable r.workspace)
        → All P (candidates r fs_path)
    candidates-All P h =
        subst (λ (es : List (Entry Value)). All P es) (sym candidates-parts)
          (All-append P (map of_pair found_in) everywhere (All-of_pair P found_in scoped) (
            unfold everywhere in
            All-map-filter P (λ (e : Entry Value). is_unscoped (scope_of e))
              (filter is_routable r.workspace) h))
      where
        scoped : All (λ p. P (of_pair p)) found_in
        scoped =
            unfold found_in in
            All-sort (falling (λ (p : Entry Value × ℕ). p.1)) (λ p. P (of_pair p))
              (scoped_in fs_path (filter is_routable r.workspace))
              (scoped_in-All P fs_path (filter is_routable r.workspace) h)

    applicable :
        (Q : Entry Value → Type 0) (o : Option Text) (es : List (Entry Value))
        → ((e : Entry Value) → specificity (scope_of e) o ≡ 0 → Q e)
        → All (λ p. Q (of_pair p)) (scoped_in o es)
        → All Q (filter (λ (e : Entry Value). is_unscoped (scope_of e)) es)
        → All Q es
    unfolding scoped_in filter
    applicable Q none [] skip scoped unscoped = tt
    applicable Q (some path) [] skip scoped unscoped = tt
    applicable Q none (e ∷ es) skip scoped unscoped = elim (Option-cases (scope_of e)) [
      | inl h ↦
          let (here, rest) : Q e
              × All Q (filter (λ (d : Entry Value). is_unscoped (scope_of d)) es) =
            rw h at unscoped in
          (here, applicable Q none es skip tt rest)
      | inr (scope, h) ↦ (skip e (rw h refl), applicable Q none es skip tt (rw h at unscoped))
    ]
    applicable Q (some path) (e ∷ es) skip scoped unscoped =
        let (head, tail) =
          All-split (λ p. Q (of_pair p)) (measured (scope_of e) path e) (scoped_in (some path) es)
            scoped in
        elim (Option-cases (scope_of e)) [
          | inl h ↦
              let (here, rest) : Q e
                  × All Q (filter (λ (d : Entry Value). is_unscoped (scope_of d)) es) =
                rw h at unscoped in
              (here, applicable Q (some path) es skip tail rest)
          | inr (scope, h) ↦ (
            elim (Bool-cases (contains_path scope path)) [
              | inl t ↦ let (here, none_else) : Q e × Unit {0} = rw (h, t) at head in here
              | inr t ↦ skip e (rw (h, t) refl)
            ],
            applicable Q (some path) es skip tail (rw h at unscoped),
          )
        ]

    of_filter :
        (Q : Entry Value → Type 0) (es : List (Entry Value))
        → ((e : Entry Value) → is_routable e ≡ false → Q e)
        → All Q (filter is_routable es)
        → All Q es
    unfolding filter
    of_filter Q [] skip h = tt
    of_filter Q (e ∷ es) skip h = elim (Bool-cases (is_routable e)) [
      | inl t ↦
          let (here, rest) : Q e × All Q (filter is_routable es) = rw t at h in
          (here, of_filter Q es skip rest)
      | inr t ↦ (skip e t, of_filter Q es skip (rw t at h))
    ]

    -- What holds of the candidates holds of every workspace entry, if it holds of those that are not routable and of
    -- those that do not apply.
    pub All-candidates :
        (Q : Entry Value → Type 0)
        → ((e : Entry Value) → is_routable e ≡ false → Q e)
        → ((e : Entry Value) → (rank fs_path) e ≡ 0 → Q e)
        → All Q (candidates r fs_path)
        → All Q r.workspace
    unfolding found_in everywhere
    All-candidates Q unroutable inapplicable h =
        let (scoped, unscoped) =
          All-split Q (map of_pair found_in) everywhere
            (subst (λ (es : List (Entry Value)). All Q es) candidates-parts h) in
        of_filter Q r.workspace unroutable (
          applicable Q fs_path (filter is_routable r.workspace) inapplicable
            (sort-All (falling (λ (p : Entry Value × ℕ). p.1)) (λ p. Q (of_pair p))
              (scoped_in fs_path (filter is_routable r.workspace)) (of_pair-All Q found_in scoped))
            unscoped)

    -- the (rank fs_path) of an entry that routing may pick and that serves a language id
    abbrev pub rank_if : (Entry Value → Bool) → Entry Value → ℕ
    rank_if serves e = if is_routable e && serves e then (rank fs_path) e else 0

    pub find-candidates :
        (serves : Entry Value → Bool) (e : Entry Value)
        → find serves (candidates r fs_path) ≡ some e
        → (is_routable e ≡ true)
          × (serves e ≡ true)
          × All (λ d. rank_if serves d ≤ (rank fs_path) e) r.workspace
    find-candidates serves e h =
        let (served, routable) =
          find-All (λ d. is_routable d ≡ true) serves (candidates r fs_path) e h
            (candidates-All (λ d. is_routable d ≡ true)
              (All-filter (λ d. is_routable d ≡ true) is_routable r.workspace (λ d t. t))) in
        (
          routable,
          served,
          All-candidates (λ d. rank_if serves d ≤ (rank fs_path) e) (λ d t. rw t (omega arith))
              (λ d z. ground (arith, z))
              (weaken (λ d. (if serves d then (rank fs_path) d else 0) ≤ (rank fs_path) e)
                (λ d. rank_if serves d ≤ (rank fs_path) e) (candidates r fs_path)
                (λ d le. loosen (is_routable d) (serves d) ((rank fs_path) d) ((rank fs_path) e) le)
                (find-greatest serves (rank fs_path) (candidates r fs_path) e candidates-IsFalling
                  h)),
        )
      where
        loosen : (a b : Bool) (n m : ℕ) → (if b then n else 0) ≤ m → (if a && b then n else 0) ≤ m
        loosen true b n m h = h
        loosen false b n m h = omega arith

    pub no_find-candidates :
        (serves : Entry Value → Bool)
        → find serves (candidates r fs_path) ≡ none
        → All (λ d. rank_if serves d ≤ 0) r.workspace
    no_find-candidates serves h =
        All-candidates (λ d. rank_if serves d ≤ 0) (λ d t. rw t (omega arith))
          (λ d z. ground (arith, z))
          (weaken (λ d. serves d ≡ false) (λ d. rank_if serves d ≤ 0) (candidates r fs_path)
            (λ d t. ground (arith, t)) (no_find serves (candidates r fs_path) h))
