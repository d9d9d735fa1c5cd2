-- ===== src/Registry/Ties.antt =====
-- rs/src/registry.rs: `tie_break`, which entry serves a claim and who else claims it. The identity of an entry, which
-- the source tests by its address, is its number in the list.
use lsp.Base.{
  ℕ, zero, suc, ◌==◌, Bool, false, not, Option, none, some, List, [], ◌∷◌, ◌++◌, map, if◌then◌else◌,
}
use lsp.Base.Text.{Text}
use lsp.Registry.Entries.{Entry, language_id, is_routable}
use lsp.Registry.Router.{Via, Resolution, none_found, found}

-- the first claimant with its number, and the claims of the others
pub record Tally (Value : Type 0) : Type 0 where
  pub best : Option (ℕ × Entry Value)
  pub others : List (Entry Value)

module _ {Value : Type 0} where
  abbrev pub is_other : Option (ℕ × Entry Value) → ℕ → Bool
  is_other none i = false
  is_other (some (winner, b)) i = not (winner == i)

  -- the inner loop of `tie_break`: entry number `i` makes `hits` claims
  unfoldable pub claim_times : ℕ → ℕ → Entry Value → Tally Value → Tally Value
  claim_times zero i e t = t
  claim_times (suc hits) i e t = claim_times hits i e (
      if is_other t.best i
      then record t { others = t.others ++ e ∷ [] }
      else record t { best = some (i, e) })

  unfoldable pub tally : (Entry Value → ℕ) → ℕ → List (Entry Value) → Tally Value → Tally Value
  unfolding claim_times
  tally hits i [] t = t
  tally hits i (e ∷ es) t =
      tally hits (suc i) es (if is_routable e then claim_times (hits e) i e t else t)

  abbrev pub ids : List (Entry Value) → List Text
  ids = map language_id

  abbrev pub ambiguity : Entry Value → List (Entry Value) → List Text
  ambiguity b [] = []
  ambiguity b (e ∷ es) = ids (b ∷ e ∷ es)

  abbrev pub resolution_of : Option (ℕ × Entry Value) → List (Entry Value) → Via → Resolution Value
  resolution_of none others via = none_found
  resolution_of (some (i, b)) others via = record (found b via) { ambiguous = ambiguity b others }

  unfoldable pub tie_break : List (Entry Value) → (Entry Value → ℕ) → Via → Resolution Value
  unfolding tally
  tie_break entries hits via =
      let t = tally hits 0 entries (record { best = none; others = [] }) in
      resolution_of t.best t.others via
