-- ===== src/Tests/Firewall.antt =====
-- The theorem on the grammar firewall, at a small grammar that it accepts.
use lsp.Base.{◌≡◌, refl, Bool, []}
use lsp.Base.Text.{Text, codes, text_eq, starts_with}
use lsp.Loaders.Json.{
  JsonValue, json_object, json_array, json_string, no_items, more_items, no_fields, more_fields,
  get_field, field_count, item_count,
}
use lsp.Loaders.AltScans.{alts_of, scan_actions, scan_slots, scan_alt_refs, scan_alts, scan_rules}
use lsp.Loaders.Scans.{is_listed, scan_forbidden_keys, ref_shaped, name_goes_on, scan_options_refs}
use lsp.Loaders.Firewall.{firewall_spec}
use lsp.Loaders.Accepted.{IsAccepted, firewall_spec-IsAccepted}

-- the builtin of the example is the only one
abbrev one_builtin : Text → Bool
one_builtin name = text_eq name (codes "@push$")

abbrev alternate : JsonValue
alternate = json_object (
    more_fields (codes "s") (json_string (codes "#NR")) (
      more_fields (codes "a") (json_array (more_items (json_string (codes "@push$")) no_items))
        no_fields))

abbrev grammar : JsonValue
grammar = json_object (
    more_fields (codes "options")
      (json_object (more_fields (codes "tag") (json_string (codes "@SKIP")) no_fields))
      (more_fields (codes "rule")
        (json_object (
          more_fields (codes "val")
            (json_object
              (more_fields (codes "open") (json_array (more_items alternate no_items)) no_fields))
            no_fields))
        no_fields))

grammar_passes : firewall_spec one_builtin (codes "1") grammar ≡ []
unfolding firewall_spec is_listed scan_forbidden_keys ref_shaped name_goes_on alts_of
    scan_options_refs scan_actions scan_slots scan_alt_refs scan_alts scan_rules get_field
    field_count item_count text_eq starts_with
grammar_passes = refl

firewall_spec-IsAccepted_example : IsAccepted one_builtin grammar
firewall_spec-IsAccepted_example =
    firewall_spec-IsAccepted one_builtin (codes "1") grammar grammar_passes
