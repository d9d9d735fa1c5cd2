-- ===== src/Loaders/AltScans.antt =====
-- rs/src/loaders.rs: the scans of `firewall_spec` over the alternates of the rules.
use lsp.Base.{
  ℕ, suc, ◌+◌, Bool, true, false, ◌&&◌, not, Option, some, List, [], ◌∷◌, ◌++◌, ltb, length,
  if◌then◌else◌,
}
use lsp.Base.Text.{Text, codes, text_eq, starts_with}
use lsp.Base.Decimal.{decimal}
use lsp.Loaders.Json.{
  JsonValue, Items, Fields, json_string, json_array, json_object, no_items, more_items, no_fields,
  more_fields, get_field, item_count,
}
use lsp.Loaders.Scans.{
  Issue, max_options_issues, max_grammar_alts, alt_func_keys, bad_ref, at_index, at_key,
}

abbrev pub alts_in : Option JsonValue → Items
alts_in (some (json_array alts)) = alts
alts_in _ = no_items

-- the list itself, or that of a wrapper
unfoldable pub alts_of : Option JsonValue → Items
unfolding get_field
alts_of (some (json_array alts)) = alts
alts_of (some (json_object wrapper)) = alts_in (get_field (codes "alts") wrapper)
alts_of _ = no_items

-- a rule that is no object is passed over before the count is looked at
abbrev pub is_over : JsonValue → ℕ → Bool
is_over (json_object rule) count = ltb max_grammar_alts count
is_over _ count = false

module _ (is_builtin : Text → Bool) where
  -- a reference in a function position
  abbrev pub scan_reference : Text → Text → List Issue → List Issue
  scan_reference reference path out =
      if starts_with (b'@' ∷ []) reference && not (is_builtin reference)
      then out ++ bad_ref reference path ∷ []
      else out

  abbrev pub scan_item : JsonValue → Text → List Issue → List Issue
  scan_item (json_string reference) path out = scan_reference reference path out
  scan_item _ path out = out

  -- the findings, and whether the scan of the alternate stops
  unfoldable pub scan_actions : Items → Text → ℕ → List Issue → List Issue × Bool
  unfolding starts_with decimal
  scan_actions no_items path i out = (out, false)
  scan_actions (more_items item items) path i out =
      let rest = scan_actions items path (suc i) (scan_item item (at_index path i) out) in
      if ltb max_options_issues (length out) then (out, true) else rest

  abbrev pub scan_slot : Text → Option JsonValue → Text → List Issue → List Issue × Bool
  scan_slot key (some (json_string reference)) path out =
      (scan_reference reference (at_key path key) out, false)
  scan_slot key (some (json_array items)) path out =
      if text_eq key (codes "a")
      then scan_actions items (path ++ codes ".a") 0 out
      else (out, false)
  scan_slot key _ path out = (out, false)

  unfoldable pub scan_slots : List Text → Fields → Text → List Issue → List Issue
  unfolding get_field scan_actions starts_with text_eq
  scan_slots [] alt path out = out
  scan_slots (key ∷ keys) alt path out =
      let (found, stops) = scan_slot key (get_field key alt) path out in
      let rest = scan_slots keys alt path found in if stops then found else rest

  unfoldable pub scan_alt_refs : JsonValue → Text → List Issue → List Issue
  unfolding scan_slots
  scan_alt_refs (json_object alt) path out =
      if ltb max_options_issues (length out) then out else scan_slots alt_func_keys alt path out
  scan_alt_refs _ path out = out

  unfoldable pub scan_alts : Items → Text → ℕ → List Issue → List Issue
  unfolding scan_alt_refs decimal
  scan_alts no_items path i out = out
  scan_alts (more_items alt alts) path i out =
      scan_alts alts path (suc i) (scan_alt_refs alt (at_index path i) out)

  -- both states of a rule, with the alternates so far
  abbrev pub scan_states : Fields → Text → List Issue × ℕ → List Issue × ℕ
  scan_states rule path (out, count) =
      let open_alts = alts_of (get_field (codes "open") rule) in
      let close_alts = alts_of (get_field (codes "close") rule) in
      (
        scan_alts close_alts (at_key path (codes "close")) 0
            (scan_alts open_alts (at_key path (codes "open")) 0 out),
        (count + item_count open_alts) + item_count close_alts,
      )

  abbrev pub scan_rule : JsonValue → Text → List Issue × ℕ → List Issue × ℕ
  scan_rule (json_object rule) path found = scan_states rule path found
  scan_rule _ path found = found

  unfoldable pub scan_rules : Fields → List Issue × ℕ → List Issue × ℕ
  unfolding scan_alts alts_of get_field item_count
  scan_rules no_fields found = found
  scan_rules (more_fields name rule rules) found =
      let scanned = scan_rule rule (at_key (codes "$.rule") name) found in
      let rest = scan_rules rules scanned in if is_over rule scanned.1 then scanned else rest
