-- ===== src/Loaders/Accepted.antt =====
-- rs/src/loaders.rs `firewall_spec`: what a grammar without findings is.
use lsp.Base.{
  ◌≤◌, ◌≡◌, refl, Bool, false, Option, none, some, List, [], ◌∷◌, ◌++◌, ltb, if◌then◌else◌, arith,
}
use lsp.Base.Text.{Text, codes}
use lsp.Loaders.Json.{
  JsonValue, Fields, json_null, json_bool, json_number, json_string, json_array, json_object,
  get_field, field_count,
}
use lsp.Loaders.AltScans.{scan_rules}
use lsp.Loaders.Scans.{Issue, max_grammar_rules, max_grammar_alts, scan_forbidden_keys}
use lsp.Loaders.Firewall.{
  is_there, refuse_ref, refuse_plugins, refuse_version, refuse_head, scan_options, rules_of,
  refuse_rules, with_rules, unless_poisoned, firewall_spec,
}
use lsp.Loaders.Clean.{IsClean, unrefused, scan_forbidden_keys-IsClean, get_field-IsClean}
use lsp.Loaders.Plain.{IsPlain, scan_options_refs-IsPlain}
use lsp.Loaders.Alternates.{AreSoundRules}
use lsp.Loaders.Rules.{alternates, scan_rules-AreSoundRules}

-- the options, where they are scanned
abbrev pub IsPlainOption : (Text → Bool) → Option JsonValue → Type 0
IsPlainOption is_builtin (some (json_object options)) = IsPlain is_builtin (json_object options)
IsPlainOption is_builtin (some (json_array options)) = IsPlain is_builtin (json_array options)
IsPlainOption is_builtin _ = Unit

abbrev pub HasNoPlugins : Option JsonValue → Type 0
HasNoPlugins (some (json_object options)) = get_field (codes "plugins") options ≡ none
HasNoPlugins _ = Unit

abbrev pub IsNoNewer : Option JsonValue → Type 0
IsNoNewer (some (json_number v)) = v.exceeds_schema ≡ false
IsNoNewer _ = Unit

abbrev pub AreRulesAccepted : (Text → Bool) → Option Fields → Type 0
AreRulesAccepted is_builtin none = Unit
AreRulesAccepted is_builtin (some rules) =
    (field_count rules ≤ max_grammar_rules)
    × (alternates rules ≤ max_grammar_alts)
    × AreSoundRules is_builtin rules

abbrev pub IsAccepted : (Text → Bool) → JsonValue → Type 0
IsAccepted is_builtin (json_object spec) =
    IsClean 0 (json_object spec)
    × (get_field (codes "ref") spec ≡ none)
    × HasNoPlugins (get_field (codes "options") spec)
    × IsNoNewer (get_field (codes "v") spec)
    × IsPlainOption is_builtin (get_field (codes "options") spec)
    × AreRulesAccepted is_builtin (rules_of (get_field (codes "rule") spec))
IsAccepted is_builtin _ = ⊥

one_finding : (x : Issue) (out : List Issue) → x ∷ out ≡ [] → ⊥
one_finding x out h = cc

both_empty : (xs ys : List Issue) → xs ++ ys ≡ [] → (xs ≡ []) × (ys ≡ [])
both_empty [] ys h = (refl, h)
both_empty (x ∷ xs) ys h = absurd (one_finding x (xs ++ ys) h)

module _ (is_builtin : Text → Bool) where
  with_rules-AreRulesAccepted :
      (rules : Option Fields) (out : List Issue)
      → with_rules is_builtin rules out ≡ []
      → (out ≡ []) × AreRulesAccepted is_builtin rules
  with_rules-AreRulesAccepted none out h = (h, tt)
  with_rules-AreRulesAccepted (some rules) out h =
      let scanned = scan_rules is_builtin rules (out ++ refuse_rules rules, 0) in
      let (few, none_found) = unrefused (ltb max_grammar_alts scanned.1) scanned.0 scanned.0 _ h in
      let low : scanned.1 ≤ max_grammar_alts = ground arith in
      let (first, sound, total) =
        scan_rules-AreSoundRules is_builtin rules (out ++ refuse_rules rules) 0 none_found low in
      let (before, unrefused_rules) = both_empty out (refuse_rules rules) first in
      let (count, nothing) =
        unrefused (ltb max_grammar_rules (field_count rules)) [] [] _ unrefused_rules in
      (before, (ground arith, omega (arith, total, low), sound))

  scan_options-IsPlainOption :
      (options : Option JsonValue) (out : List Issue)
      → ((value : JsonValue) → options ≡ some value → IsClean 1 value)
      → scan_options is_builtin options out ≡ []
      → (out ≡ []) × IsPlainOption is_builtin options
  scan_options-IsPlainOption none out clean h = (h, tt)
  scan_options-IsPlainOption (some json_null) out clean h = (h, tt)
  scan_options-IsPlainOption (some (json_bool b)) out clean h = (h, tt)
  scan_options-IsPlainOption (some (json_number v)) out clean h = (h, tt)
  scan_options-IsPlainOption (some (json_string t)) out clean h = (h, tt)
  scan_options-IsPlainOption (some (json_array items)) out clean h =
      scan_options_refs-IsPlain is_builtin (json_array items) (codes "$.options") out 0
        (omega arith) (clean (json_array items) refl) h
  scan_options-IsPlainOption (some (json_object options)) out clean h =
      scan_options_refs-IsPlain is_builtin (json_object options) (codes "$.options") out 0
        (omega arith) (clean (json_object options) refl) h

  absent : (o : Option JsonValue) (x : Issue) → (if is_there o then x ∷ [] else []) ≡ [] → o ≡ none
  absent none x h = refl
  absent (some value) x h = absurd (one_finding x [] h)

  refuse_plugins-HasNoPlugins :
      (options : Option JsonValue) → refuse_plugins options ≡ [] → HasNoPlugins options
  refuse_plugins-HasNoPlugins none h = tt
  refuse_plugins-HasNoPlugins (some json_null) h = tt
  refuse_plugins-HasNoPlugins (some (json_bool b)) h = tt
  refuse_plugins-HasNoPlugins (some (json_number v)) h = tt
  refuse_plugins-HasNoPlugins (some (json_string t)) h = tt
  refuse_plugins-HasNoPlugins (some (json_array items)) h = tt
  refuse_plugins-HasNoPlugins (some (json_object options)) h =
      absent (get_field (codes "plugins") options) _ h

  refuse_version-IsNoNewer :
      (schema : Text) (v : Option JsonValue) → refuse_version schema v ≡ [] → IsNoNewer v
  refuse_version-IsNoNewer schema none h = tt
  refuse_version-IsNoNewer schema (some json_null) h = tt
  refuse_version-IsNoNewer schema (some (json_bool b)) h = tt
  refuse_version-IsNoNewer schema (some (json_number v)) h =
      (unrefused v.exceeds_schema [] [] _ h).0
  refuse_version-IsNoNewer schema (some (json_string t)) h = tt
  refuse_version-IsNoNewer schema (some (json_array items)) h = tt
  refuse_version-IsNoNewer schema (some (json_object o)) h = tt

  unless_poisoned-IsAccepted :
      (schema : Text) (spec : Fields) (poisoned : List Issue)
      → scan_forbidden_keys (json_object spec) (codes "$") [] 0 ≡ poisoned
      → unless_poisoned is_builtin schema spec poisoned ≡ []
      → IsAccepted is_builtin (json_object spec)
  unfolding IsClean
  unless_poisoned-IsAccepted schema spec (x ∷ found) e h = absurd (one_finding x found h)
  unless_poisoned-IsAccepted schema spec [] e h =
      let (start, clean) = scan_forbidden_keys-IsClean (json_object spec) (codes "$") [] 0 e in
      let options = get_field (codes "options") spec in
      let (scanned, rules) =
        with_rules-AreRulesAccepted (rules_of (get_field (codes "rule") spec)) _ h in
      let (head, plain) =
        scan_options-IsPlainOption options (refuse_head schema spec)
          (λ value there. get_field-IsClean 1 (codes "options") spec value clean.1 there) scanned in
      let (no_ref, tail) = both_empty (refuse_ref spec) _ head in
      let (no_plugins, no_version) = both_empty (refuse_plugins options) _ tail in
      (
        clean,
        absent (get_field (codes "ref") spec) _ no_ref,
        refuse_plugins-HasNoPlugins options no_plugins,
        refuse_version-IsNoNewer schema (get_field (codes "v") spec) no_version,
        plain,
        rules,
      )

  -- A grammar without findings is an object with no forbidden key at any depth and no container
  -- deeper than the bound; it has no `ref` and no plugins, its version number is not above the
  -- engine's, every text in its options that looks like a reference is the merge sentinel or a
  -- builtin, its rules and alternates are within their caps, and every reference in a function
  -- position of an alternate is a builtin.
  pub firewall_spec-IsAccepted :
      (schema : Text) (spec : JsonValue)
      → firewall_spec is_builtin schema spec ≡ []
      → IsAccepted is_builtin spec
  unfolding firewall_spec
  firewall_spec-IsAccepted schema (json_object spec) h =
      unless_poisoned-IsAccepted schema spec
        (scan_forbidden_keys (json_object spec) (codes "$") [] 0) refl h
  firewall_spec-IsAccepted schema json_null h = one_finding _ [] h
  firewall_spec-IsAccepted schema (json_bool b) h = one_finding _ [] h
  firewall_spec-IsAccepted schema (json_number v) h = one_finding _ [] h
  firewall_spec-IsAccepted schema (json_string t) h = one_finding _ [] h
  firewall_spec-IsAccepted schema (json_array items) h = one_finding _ [] h
