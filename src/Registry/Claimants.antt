-- ===== src/Registry/Claimants.antt =====
-- registry.rs: `tie_break` against the list of the entries that make a claim.
use lsp.Base.{
  ℕ, zero, suc, ◌<◌, ◌≡◌, refl, sym, ap, ◌∙◌, true, false, ◌&&◌, Bool-cases, inl, inr, Option, none,
  some, List, [], ◌∷◌, ◌++◌, append-nil, append_assoc, ltb, ◌==◌, if◌then◌else◌, arith,
}
use lsp.Registry.Entries.{Entry, is_routable}
use lsp.Registry.Router.{Via, Resolution, none_found, found}
use lsp.Registry.Ties.{Tally, claim_times, tally, ambiguity, resolution_of, tie_break}

module _ {Value : Type 0} where
  -- an entry as often as it claims
  unfoldable pub times : ℕ → Entry Value → List (Entry Value)
  times zero e = []
  times (suc n) e = e ∷ times n e

  -- the claims of the routable entries, in order
  unfoldable pub claims_of : (Entry Value → ℕ) → List (Entry Value) → List (Entry Value)
  unfolding times
  claims_of hits [] = []
  claims_of hits (e ∷ es) =
      if is_routable e then times (hits e) e ++ claims_of hits es else claims_of hits es

  -- the first routable entry with a claim, and the entries behind it
  unfoldable pub first_claimant :
      (Entry Value → ℕ) → List (Entry Value) → Option (Entry Value × List (Entry Value))
  first_claimant hits [] = none
  first_claimant hits (e ∷ es) =
      if is_routable e && ltb 0 (hits e) then some (e, es) else first_claimant hits es

  abbrev pub claimed :
      (Entry Value → ℕ) → Via → Option (Entry Value × List (Entry Value)) → Resolution Value
  claimed hits via none = none_found
  claimed hits via (some (b, behind)) = record (found b via) {
    ambiguous = ambiguity b (claims_of hits behind);
  }

  claim_times_other :
      (hits i w : ℕ) (e b : Entry Value) (others : List (Entry Value))
      → (w == i) ≡ false
      → claim_times hits i e (record { best = some (w, b); others = others })
        ≡ record { best = some (w, b); others = others ++ times hits e }
  unfolding claim_times times
  claim_times_other zero i w e b others h =
      ap (λ (os : List (Entry Value)). record { best = some (w, b); others = os })
        (sym (append-nil others))
  claim_times_other (suc hits) i w e b others h = rw h (
      claim_times_other hits i w e b (others ++ e ∷ []) h
      ∙ ap (λ (os : List (Entry Value)). record { best = some (w, b); others = os })
          (append_assoc others (e ∷ []) (times hits e)))

  claim_times_self :
      (hits i : ℕ) (e : Entry Value) (others : List (Entry Value))
      → claim_times hits i e (record { best = some (i, e); others = others })
        ≡ record { best = some (i, e); others = others }
  unfolding claim_times
  claim_times_self zero i e others = refl
  claim_times_self (suc hits) i e others =
      let same : (i == i) ≡ true = ground arith in rw same (claim_times_self hits i e others)

  tally_won :
      (hits : Entry Value → ℕ) (i w : ℕ) (es : List (Entry Value)) (b : Entry Value)
      (others : List (Entry Value))
      → w < i
      → tally hits i es (record { best = some (w, b); others = others })
        ≡ record { best = some (w, b); others = others ++ claims_of hits es }
  unfolding tally claims_of
  tally_won hits i w [] b others h =
      ap (λ (os : List (Entry Value)). record { best = some (w, b); others = os })
        (sym (append-nil others))
  tally_won hits i w (e ∷ es) b others h = elim (Bool-cases (is_routable e)) [
    | inl r ↦ rw r (
        ap (tally hits (suc i) es) (claim_times_other (hits e) i w e b others (ground arith))
        ∙ tally_won hits (suc i) w es b (others ++ times (hits e) e) (omega arith)
        ∙ ap (λ (os : List (Entry Value)). record { best = some (w, b); others = os })
            (append_assoc others (times (hits e) e) (claims_of hits es)))
    | inr r ↦ rw r (tally_won hits (suc i) w es b others (omega arith))
  ]

  -- the tally of entries from number `i` on, nobody having claimed yet
  abbrev Outcome :
      (Entry Value → ℕ) → Tally Value → Option (Entry Value × List (Entry Value)) → Type 0
  Outcome hits t none = t ≡ record { best = none; others = [] }
  Outcome hits t (some (b, behind)) =
      (w : ℕ) × (t ≡ record { best = some (w, b); others = claims_of hits behind })

  claim_first :
      (hits : Entry Value → ℕ) (n i : ℕ) (e : Entry Value) (es : List (Entry Value))
      → tally hits (suc i) es (claim_times (suc n) i e (record { best = none; others = [] }))
        ≡ record { best = some (i, e); others = claims_of hits es }
  unfolding claim_times
  claim_first hits n i e es =
      ap (tally hits (suc i) es) (claim_times_self n i e [])
      ∙ tally_won hits (suc i) i es e [] (omega arith)

  tally-Outcome :
      (hits : Entry Value → ℕ) (i : ℕ) (es : List (Entry Value))
      → Outcome hits
          (tally hits i es (record { best = none; others = [] }))
          (first_claimant hits es)
  unfolding tally first_claimant claim_times
  tally-Outcome hits i [] = refl
  tally-Outcome hits i (e ∷ es) = elim (Bool-cases (is_routable e)) [
    | inl r ↦ rw r (claims (hits e) (tally-Outcome hits (suc i) es))
    | inr r ↦ rw r (tally-Outcome hits (suc i) es)
  ]
    where
      claims :
          (n : ℕ)
          → Outcome hits
              (tally hits (suc i) es (record { best = none; others = [] }))
              (first_claimant hits es)
          → Outcome hits
              (tally hits (suc i) es (claim_times n i e (record { best = none; others = [] })))
              (if true && ltb 0 n then some (e, es) else first_claimant hits es)
      claims zero ih = ih
      claims (suc n) ih =
          let some_claim : ltb 0 (suc n) ≡ true = ground arith in
          rw some_claim (i, claim_first hits n i e es)

  resolution-claimed :
      (hits : Entry Value → ℕ) (via : Via) (t : Tally Value)
      (first : Option (Entry Value × List (Entry Value)))
      → Outcome hits t first
      → resolution_of t.best t.others via ≡ claimed hits via first
  resolution-claimed hits via t none h =
      ap (λ (u : Tally Value). resolution_of u.best u.others via) h
  resolution-claimed hits via t (some (b, behind)) (w, h) =
      ap (λ (u : Tally Value). resolution_of u.best u.others via) h

  -- The tie-break over a tier answers the first routable entry that makes a claim; where a
  -- routable entry behind it claims too, it names the first and then each other one, as often as
  -- it claims.
  pub tie_break-claimed :
      (entries : List (Entry Value)) (hits : Entry Value → ℕ) (via : Via)
      → tie_break entries hits via ≡ claimed hits via (first_claimant hits entries)
  unfolding tie_break
  tie_break-claimed entries hits via =
      resolution-claimed hits via (tally hits 0 entries (record { best = none; others = [] }))
        (first_claimant hits entries) (tally-Outcome hits 0 entries)
