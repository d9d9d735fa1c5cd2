-- ===== src/Loaders/Firewall.antt =====
-- rs/src/loaders.rs: `firewall_spec`, the findings on a candidate grammar.
use lsp.Base.{ℕ, Bool, true, false, Option, none, some, List, [], ◌∷◌, ◌++◌, ltb, if◌then◌else◌}
use lsp.Base.Text.{Text, codes}
use lsp.Base.Decimal.{decimal}
use lsp.Loaders.Json.{
  JsonValue, Fields, json_number, json_array, json_object, get_field, field_count, numbered,
}
use lsp.Loaders.AltScans.{scan_rules}
use lsp.Loaders.Scans.{
  Issue, issue, max_grammar_rules, max_grammar_alts, scan_forbidden_keys, scan_options_refs,
}

abbrev pub is_there : Option JsonValue → Bool
is_there none = false
is_there (some value) = true

abbrev pub refuse_ref : Fields → List Issue
refuse_ref spec =
    if is_there (get_field (codes "ref") spec)
    then issue (codes "$.ref") (
        codes
          "'ref' is not part of the serialized grammar form: live functions are not JSON. Name $-suffixed engine builtins instead.")
      ∷ []
    else []

abbrev pub refuse_plugins : Option JsonValue → List Issue
refuse_plugins (some (json_object options)) =
    if is_there (get_field (codes "plugins") options)
    then issue (codes "$.options.plugins") (
        codes
          "plugins cannot be supplied through a serialized grammar: a plugin is live code, and this lane accepts only data")
      ∷ []
    else []
refuse_plugins _ = []

-- `schema` is the engine's BUILTIN_SCHEMA_VERSION as a text
abbrev pub refuse_version : Text → Option JsonValue → List Issue
refuse_version schema (some (json_number v)) =
    if v.exceeds_schema
    then issue (codes "$.v") (
        codes "grammar declares builtin schema version "
        ++ (v.js_text ++ (codes "; this engine supports up to " ++ schema)))
      ∷ []
    else []
refuse_version schema _ = []

-- what one scan begins with
abbrev pub refuse_head : Text → Fields → List Issue
refuse_head schema spec =
    refuse_ref spec
    ++ (refuse_plugins (get_field (codes "options") spec)
        ++ refuse_version schema (get_field (codes "v") spec))

abbrev pub scan_options : (Text → Bool) → Option JsonValue → List Issue → List Issue
scan_options is_builtin (some (json_object options)) out =
    scan_options_refs is_builtin (json_object options) (codes "$.options") out 0
scan_options is_builtin (some (json_array options)) out =
    scan_options_refs is_builtin (json_array options) (codes "$.options") out 0
scan_options is_builtin _ out = out

-- `Object.keys(gs.rule)`
abbrev pub rules_of : Option JsonValue → Option Fields
rules_of (some (json_object rules)) = some rules
rules_of (some (json_array rules)) = some (numbered 0 rules)
rules_of _ = none

abbrev pub refuse_rules : Fields → List Issue
refuse_rules rules =
    if ltb max_grammar_rules (field_count rules)
    then issue (codes "$.rule") (
        codes "grammar defines " ++ (decimal (field_count rules) ++ codes " rules, more than 5000"))
      ∷ []
    else []

abbrev pub refuse_alts : List Issue × ℕ → List Issue
refuse_alts (out, count) =
    if ltb max_grammar_alts count
    then out
      ++ issue (codes "$.rule") (codes "grammar defines more than 10000 alternates in total") ∷ []
    else out

abbrev pub with_rules : (Text → Bool) → Option Fields → List Issue → List Issue
with_rules is_builtin none out = out
with_rules is_builtin (some rules) out =
    refuse_alts (scan_rules is_builtin rules (out ++ refuse_rules rules, 0))

-- from the poisoned tree on
abbrev pub unless_poisoned : (Text → Bool) → Text → Fields → List Issue → List Issue
unless_poisoned is_builtin schema spec (finding ∷ poisoned) = finding ∷ poisoned
unless_poisoned is_builtin schema spec [] =
    with_rules is_builtin (rules_of (get_field (codes "rule") spec))
      (scan_options is_builtin (get_field (codes "options") spec) (refuse_head schema spec))

unfoldable pub firewall_spec : (Text → Bool) → Text → JsonValue → List Issue
unfolding get_field scan_forbidden_keys scan_options_refs scan_rules numbered field_count decimal
firewall_spec is_builtin schema (json_object spec) =
    unless_poisoned is_builtin schema spec (scan_forbidden_keys (json_object spec) (codes "$") [] 0)
firewall_spec is_builtin schema _ =
    issue (codes "$") (codes "grammar must be a JSON object (the serialized GrammarSpec form)") ∷ []
