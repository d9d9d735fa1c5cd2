-- ===== src/Server/Deadlines.antt =====
-- rs/src/server.rs: the deadlines of analyses, and that the loop does not come back to one that is past.
use lsp.Base.{
  ℕ, ◌≡◌, refl, sym, ap, subst, ◌∙◌, ◌≤◌, ◌<◌, min, Bool, true, false, ◌||◌, Bool-cases, leb, ◌⊎◌,
  inl, inr, Option, none, some, List, [], ◌∷◌, map, filter, In, arith,
}
use lsp.Base.Sort.{sort, insert_sorted}
use lsp.Base.Text.{Text, text_eq, text_eq_reflexive}
use lsp.Base.Maps.{erase}
use lsp.Documents.Store.{DocumentStore}
use lsp.Registry.Router.{Router}
use lsp.Server.State.{Host, Server}
use lsp.Server.Analyses.{run_analysis}
use lsp.Server.Due.{
  due_order, deadline_first, run_all, due_by, analyze_due, earliest, next_deadline,
}
use lsp.Server.Untouched.{settings-run_analysis}

min_cases : (a b : ℕ) → (min a b ≡ a) ⊎ (min a b ≡ b)
min_cases a b = elim (Bool-cases (leb a b)) [
  | inl e ↦ inl (ground arith)
  | inr e ↦ inr (ground arith)
]

-- whether the URI is among those that are due
unfoldable is_covered : List (ℕ × Text) → Text → Bool
is_covered [] uri = false
is_covered ((at, other) ∷ due) uri = text_eq uri other || is_covered due uri

unfoldable erase_each : List (ℕ × Text) → List (Text × ℕ) → List (Text × ℕ)
erase_each [] pending = pending
erase_each ((at, uri) ∷ due) pending = erase_each due (erase text_eq uri pending)

kept_head :
    (uri : Text) (p q : Text × ℕ) (pending rest : List (Text × ℕ))
    → text_eq q.0 uri ≡ false
    → (In p rest → In p pending × (text_eq p.0 uri ≡ false))
    → In p (q ∷ rest)
    → In p (q ∷ pending) × (text_eq p.0 uri ≡ false)
kept_head uri p q pending rest e later (inl k) =
    (inl k, ap (λ (r : Text × ℕ). text_eq r.0 uri) k ∙ e)
kept_head uri p q pending rest e later (inr k) = let (there, apart) = later k in (inr there, apart)

In-erase :
    (uri : Text) (p : Text × ℕ) (pending : List (Text × ℕ))
    → In p (erase text_eq uri pending)
    → In p pending × (text_eq p.0 uri ≡ false)
unfolding erase
In-erase uri p [] h = absurd h
In-erase uri p ((key, at) ∷ pending) h = elim (Bool-cases (text_eq key uri)) [
  | inl e ↦ let (there, apart) = In-erase uri p pending (rw e at h) in (inr there, apart)
  | inr e ↦
      kept_head uri p (key, at) pending (erase text_eq uri pending) e (In-erase uri p pending)
        (rw e at h)
]

In-erase_each :
    (p : Text × ℕ) (due : List (ℕ × Text)) (pending : List (Text × ℕ))
    → In p (erase_each due pending)
    → In p pending × (is_covered due p.0 ≡ false)
unfolding erase_each is_covered
In-erase_each p [] pending h = (h, refl)
In-erase_each p ((at, uri) ∷ due) pending h =
    let (kept, uncovered) = In-erase_each p due (erase text_eq uri pending) h in
    let (there, apart) = In-erase uri p pending kept in (there, rw (apart, uncovered) refl)

swap_or : (a b c : Bool) → a || (b || c) ≡ b || (a || c)
swap_or true true c = refl
swap_or true false c = refl
swap_or false b c = refl

is_covered-insert_sorted :
    (x : ℕ × Text) (ys : List (ℕ × Text)) (uri : Text)
    → is_covered (insert_sorted due_order x ys) uri ≡ is_covered (x ∷ ys) uri
unfolding is_covered insert_sorted
is_covered-insert_sorted x [] uri = refl
is_covered-insert_sorted x (y ∷ ys) uri = elim (Bool-cases (due_order x y)) [
  | inl e ↦ rw e refl
  | inr e ↦ rw e (
      ap (◌||◌ (text_eq uri y.1)) (is_covered-insert_sorted x ys uri)
      ∙ swap_or (text_eq uri y.1) (text_eq uri x.1) (is_covered ys uri))
]

is_covered-sort :
    (due : List (ℕ × Text)) (uri : Text) → is_covered (sort due_order due) uri ≡ is_covered due uri
unfolding is_covered sort
is_covered-sort [] uri = refl
is_covered-sort (x ∷ due) uri =
    is_covered-insert_sorted x (sort due_order due) uri
    ∙ ap (◌||◌ (text_eq uri x.1)) (is_covered-sort due uri)

or_right : (a b : Bool) → b ≡ true → a || b ≡ true
or_right true b h = refl
or_right false b h = h

is_covered-filter :
    (now : ℕ) (p : Text × ℕ) (pending : List (Text × ℕ))
    → In p pending
    → leb p.1 now ≡ true
    → is_covered (map deadline_first (filter (λ (q : Text × ℕ). leb q.1 now) pending)) p.0 ≡ true
unfolding is_covered filter
is_covered-filter now p [] h past = absurd h
is_covered-filter now p (q ∷ pending) (inl k) past =
    let same : leb q.1 now ≡ true = ap (λ (r : Text × ℕ). leb r.1 now) (sym k) ∙ past in
    let first : text_eq p.0 q.0 ≡ true =
      ap (λ (r : Text × ℕ). text_eq p.0 r.0) (sym k) ∙ text_eq_reflexive p.0 in
    rw (same, first) refl
is_covered-filter now p (q ∷ pending) (inr k) past =
    let later = is_covered-filter now p pending k past in
    elim (Bool-cases (leb q.1 now)) [
      | inl e ↦ rw e (or_right (text_eq p.0 q.0) _ later)
      | inr e ↦ rw e later
    ]

some_same : (a b : ℕ) → ◌≡◌ {A = Option ℕ} (some a) (some b) → a ≡ b
some_same a b h = cc

some_apart : (a : ℕ) → ◌≡◌ {A = Option ℕ} none (some a) → ⊥
some_apart a h = cc

least_cons :
    (at : ℕ) (q : Text × ℕ) (pending : List (Text × ℕ))
    → at ≤ q.1
    → ((p : Text × ℕ) → In p pending → at ≤ p.1)
    → (p : Text × ℕ) → In p (q ∷ pending)
    → at ≤ p.1
least_cons at q pending low least p (inl k) = subst (λ (r : Text × ℕ). at ≤ r.1) (sym k) low
least_cons at q pending low least p (inr k) = least p k

-- the least of the deadlines and of the best one so far
earliest_from :
    (pending : List (Text × ℕ)) (best at : ℕ)
    → earliest pending (some best) ≡ some at
    → (at ≤ best)
      × (((uri : Text) × In (uri, at) pending) ⊎ (at ≡ best))
      × ((p : Text × ℕ) → In p pending → at ≤ p.1)
earliest_from [] best at h =
    let e = some_same best at h in (omega arith, inr (sym e), λ p k. absurd k)
earliest_from ((uri, d) ∷ pending) best at h =
    let (low, found, least) = earliest_from pending (min best d) at h in
    (omega arith, from found, least_cons at (uri, d) pending (omega arith) least)
  where
    from :
        ((u : Text) × In (u, at) pending) ⊎ (at ≡ min best d)
        → ((u : Text) × In (u, at) ((uri, d) ∷ pending)) ⊎ (at ≡ best)
    from (inl (u, k)) = inl (u, inr k)
    from (inr e) = elim (min_cases best d) [
      | inl m ↦ inr (e ∙ m)
      | inr m ↦ inl (uri, inl (ap (λ (n : ℕ). (uri, n)) (e ∙ m)))
    ]

module _ {Value Inst Error Parsed : Type 0} (host : Host Value Inst Error Parsed) where
  pending-run_all :
      (due : List (ℕ × Text)) (s : Server Value Inst Error Parsed)
      → (run_all host due s).0.pending ≡ erase_each due s.pending
  unfolding run_all erase_each
  pending-run_all [] s = refl
  pending-run_all ((at, uri) ∷ due) s =
      let before = record s { pending = erase text_eq uri s.pending } in
      pending-run_all due (run_analysis host uri before).0
      ∙ ap
          (λ (kept : List (Text × ℕ) × (Bool × (DocumentStore × Router Value))).
            erase_each due kept.0)
          (settings-run_analysis host uri before)

  -- The next deadline is one of those that are pending, and none of them is earlier.
  next_deadline_least :
      (s : Server Value Inst Error Parsed) (at : ℕ)
      → next_deadline host s ≡ some at
      → ((uri : Text) × In (uri, at) s.pending) × ((p : Text × ℕ) → In p s.pending → at ≤ p.1)
  unfolding next_deadline
  next_deadline_least s at h = of_pending s.pending h
    where
      of_pending :
          (pending : List (Text × ℕ))
          → earliest pending none ≡ some at
          → ((uri : Text) × In (uri, at) pending) × ((p : Text × ℕ) → In p pending → at ≤ p.1)
      of_pending [] k = absurd (some_apart at k)
      of_pending ((uri, d) ∷ pending) k =
          let (low, found, least) = earliest_from pending d at k in
          (there found, least_cons at (uri, d) pending low least)
        where
          there :
              ((u : Text) × In (u, at) pending) ⊎ (at ≡ d)
              → (u : Text) × In (u, at) ((uri, d) ∷ pending)
          there (inl (u, j)) = (u, inr j)
          there (inr e) = (uri, inl (ap (λ (n : ℕ). (uri, n)) e))

  -- After the analyses that are due, every deadline that is left lies ahead, so the loop waits
  -- before it comes to one.
  pub next_deadline-analyze_due :
      (now : ℕ) (s : Server Value Inst Error Parsed) (at : ℕ)
      → next_deadline host (analyze_due host now s).0 ≡ some at
      → now < at
  unfolding analyze_due
  next_deadline-analyze_due now s at h =
      let ((uri, there), least) = next_deadline_least (run_all host (due_by host now s) s).0 at h in
      let left = subst (In (uri, at)) (pending-run_all (due_by host now s) s) there in
      let (was, uncovered) = In-erase_each (uri, at) (due_by host now s) s.pending left in
      elim (Bool-cases (leb at now)) [
        | inl past ↦ absurd (
            apart (
              sym (is_covered-sort _ uri ∙ is_covered-filter now (uri, at) s.pending was past)
              ∙ uncovered))
        | inr late ↦ ground arith
      ]
    where
      apart : true ≡ false → ⊥
      apart e = cc
