-- ===== src/Loaders/Rules.antt =====
-- rs/src/loaders.rs: the loop of `firewall_spec` over the rules, which without findings has seen and counted them all.
use lsp.Base.{ℕ, ◌+◌, ◌≤◌, ◌<◌, ◌≡◌, inl, inr, ◌∙◌, Bool, true, false, Bool-cases, List, [], arith}
use lsp.Base.Text.{Text, codes}
use lsp.Loaders.Json.{
  JsonValue, Fields, json_null, json_bool, json_number, json_string, json_array, json_object,
  no_fields, more_fields, get_field, item_count,
}
use lsp.Loaders.AltScans.{alts_of, scan_rule, is_over, scan_rules}
use lsp.Loaders.Scans.{Issue, max_grammar_alts, at_key}
use lsp.Loaders.Alternates.{IsSoundRule, AreSoundRules, scan_alts-AreSoundAlts}

-- the alternates of the rules that are objects
abbrev pub alternates_of : JsonValue → ℕ
alternates_of (json_object rule) =
    item_count (alts_of (get_field (codes "open") rule))
    + item_count (alts_of (get_field (codes "close") rule))
alternates_of _ = 0

abbrev pub alternates : Fields → ℕ
alternates no_fields = 0
alternates (more_fields name rule rules) = alternates_of rule + alternates rules

never : false ≡ true → ⊥
never e = cc

over_above : (rule : JsonValue) (n : ℕ) → is_over rule n ≡ true → max_grammar_alts < n
over_above (json_object rule) n h = ground arith
over_above json_null n h = absurd (never h)
over_above (json_bool b) n h = absurd (never h)
over_above (json_number v) n h = absurd (never h)
over_above (json_string t) n h = absurd (never h)
over_above (json_array items) n h = absurd (never h)

module _ (is_builtin : Text → Bool) where
  scan_rule-IsSoundRule :
      (rule : JsonValue) (path : Text) (out : List Issue) (count : ℕ)
      → (scan_rule is_builtin rule path (out, count)).0 ≡ []
      → (out ≡ [])
        × IsSoundRule is_builtin rule
        × ((scan_rule is_builtin rule path (out, count)).1 ≡ count + alternates_of rule)
  scan_rule-IsSoundRule (json_object rule) path out count h =
      let (first, close_sound) =
        scan_alts-AreSoundAlts is_builtin (alts_of (get_field (codes "close") rule))
          (at_key path (codes "close")) 0 _ h in
      let (before, open_sound) =
        scan_alts-AreSoundAlts is_builtin (alts_of (get_field (codes "open") rule))
          (at_key path (codes "open")) 0 out first in
      (before, (open_sound, close_sound), omega arith)
  scan_rule-IsSoundRule json_null path out count h = (h, tt, omega arith)
  scan_rule-IsSoundRule (json_bool b) path out count h = (h, tt, omega arith)
  scan_rule-IsSoundRule (json_number v) path out count h = (h, tt, omega arith)
  scan_rule-IsSoundRule (json_string t) path out count h = (h, tt, omega arith)
  scan_rule-IsSoundRule (json_array items) path out count h = (h, tt, omega arith)

  pub scan_rules-AreSoundRules :
      (rules : Fields) (out : List Issue) (count : ℕ)
      → (scan_rules is_builtin rules (out, count)).0 ≡ []
      → (scan_rules is_builtin rules (out, count)).1 ≤ max_grammar_alts
      → (out ≡ [])
        × AreSoundRules is_builtin rules
        × ((scan_rules is_builtin rules (out, count)).1 ≡ count + alternates rules)
  unfolding scan_rules
  scan_rules-AreSoundRules no_fields out count h low = (h, tt, omega arith)
  scan_rules-AreSoundRules (more_fields name rule rules) out count h low =
      let path = at_key (codes "$.rule") name in
      let scanned = scan_rule is_builtin rule path (out, count) in
      elim (Bool-cases (is_over rule scanned.1)) [
        | inl e ↦
            let above = over_above rule scanned.1 e in
            let below : scanned.1 ≤ max_grammar_alts = rw e at low in
            absurd (omega (arith, above, below))
        | inr e ↦
            let (first, rest, total) =
              scan_rules-AreSoundRules rules scanned.0 scanned.1 (rw e at h) (rw e at low) in
            let (before, sound, counted) = scan_rule-IsSoundRule rule path out count first in
            (before, (sound, rest), rw e (total ∙ (omega (arith, counted))))
      ]
