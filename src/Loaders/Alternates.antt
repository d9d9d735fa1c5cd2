-- ===== src/Loaders/Alternates.antt =====
-- rs/src/loaders.rs `scan_alt_refs` and the loop over the rules: without findings, every function position of every
-- alternate names a builtin.
use lsp.Base.{
  ℕ, suc, ◌≡◌, inl, inr, refl, sym, ◌∙◌, Bool, true, false, ◌&&◌, not, Bool-cases, Option, none,
  some, List, [], ◌∷◌, ◌++◌, ltb, length, if◌then◌else◌, All,
}
use lsp.Base.Text.{Text, codes, text_eq, starts_with}
use lsp.Loaders.Json.{
  JsonValue, Items, Fields, json_null, json_bool, json_number, json_string, json_array, json_object,
  no_items, more_items, no_fields, more_fields, get_field,
}
use lsp.Loaders.AltScans.{
  alts_of, scan_reference, scan_item, scan_actions, scan_slot, scan_slots, scan_alt_refs, scan_alts,
}
use lsp.Loaders.Scans.{Issue, bad_ref, max_options_issues, alt_func_keys, at_index, at_key}
use lsp.Loaders.Clean.{unrefused}
use lsp.Loaders.Plain.{scanned_on}

apart : true ≡ false → ⊥
apart e = cc

module _ (is_builtin : Text → Bool) where
  -- a text that is a reference in a function position names a builtin
  abbrev pub IsBuiltinRef : Text → Type 0
  IsBuiltinRef text = starts_with (b'@' ∷ []) text ≡ true → is_builtin text ≡ true

  abbrev pub IsSoundItem : JsonValue → Type 0
  IsSoundItem (json_string text) = IsBuiltinRef text
  IsSoundItem _ = Unit

  abbrev pub AreSoundItems : Items → Type 0
  AreSoundItems no_items = Unit
  AreSoundItems (more_items item items) = IsSoundItem item × AreSoundItems items

  -- the actions of `a` may be a list
  abbrev pub IsSoundSlot : Text → Option JsonValue → Type 0
  IsSoundSlot key (some (json_string text)) = IsBuiltinRef text
  IsSoundSlot key (some (json_array items)) = text_eq key (codes "a") ≡ true → AreSoundItems items
  IsSoundSlot key _ = Unit

  abbrev pub IsSoundAlt : JsonValue → Type 0
  IsSoundAlt (json_object alt) = All (λ key. IsSoundSlot key (get_field key alt)) alt_func_keys
  IsSoundAlt _ = Unit

  abbrev pub AreSoundAlts : Items → Type 0
  AreSoundAlts no_items = Unit
  AreSoundAlts (more_items alt alts) = IsSoundAlt alt × AreSoundAlts alts

  abbrev pub IsSoundRule : JsonValue → Type 0
  IsSoundRule (json_object rule) =
      AreSoundAlts (alts_of (get_field (codes "open") rule))
      × AreSoundAlts (alts_of (get_field (codes "close") rule))
  IsSoundRule _ = Unit

  abbrev pub AreSoundRules : Fields → Type 0
  AreSoundRules no_fields = Unit
  AreSoundRules (more_fields name rule rules) = IsSoundRule rule × AreSoundRules rules

  builtin_of : (at builtin : Bool) → at && not builtin ≡ false → at ≡ true → builtin ≡ true
  builtin_of true true h k = refl
  builtin_of true false h k = absurd (apart h)
  builtin_of false builtin h k = absurd (apart (sym k))

  scan_reference-IsBuiltinRef :
      (text path : Text) (out : List Issue)
      → scan_reference is_builtin text path out ≡ []
      → (out ≡ []) × IsBuiltinRef text
  scan_reference-IsBuiltinRef text path out h =
      let (test, before) =
        unrefused (starts_with (b'@' ∷ []) text && not (is_builtin text)) out out
          (bad_ref text path) h in
      (before, builtin_of (starts_with (b'@' ∷ []) text) (is_builtin text) test)

  scan_item-IsSoundItem :
      (item : JsonValue) (path : Text) (out : List Issue)
      → scan_item is_builtin item path out ≡ []
      → (out ≡ []) × IsSoundItem item
  scan_item-IsSoundItem json_null path out h = (h, tt)
  scan_item-IsSoundItem (json_bool b) path out h = (h, tt)
  scan_item-IsSoundItem (json_number n) path out h = (h, tt)
  scan_item-IsSoundItem (json_string text) path out h = scan_reference-IsBuiltinRef text path out h
  scan_item-IsSoundItem (json_array items) path out h = (h, tt)
  scan_item-IsSoundItem (json_object _) path out h = (h, tt)

  -- a scan that stops has findings
  scan_goes_on :
      (out : List Issue) (rest : List Issue × Bool)
      → (if ltb max_options_issues (length out) then (out, true) else rest).0 ≡ []
      → (rest.0 ≡ [])
        × ((if ltb max_options_issues (length out) then (out, true) else rest).1 ≡ rest.1)
  scan_goes_on [] rest h = (h, refl)
  scan_goes_on (x ∷ out) rest h = elim (Bool-cases (ltb max_options_issues (length (x ∷ out)))) [
    | inl e ↦ absurd (something (rw e at h))
    | inr e ↦ (rw e at h, rw e refl)
  ]
    where
      something : x ∷ out ≡ [] → ⊥
      something e = cc

  scan_actions-AreSoundItems :
      (items : Items) (path : Text) (i : ℕ) (out : List Issue)
      → (scan_actions is_builtin items path i out).0 ≡ []
      → (out ≡ []) × AreSoundItems items × ((scan_actions is_builtin items path i out).1 ≡ false)
  unfolding scan_actions
  scan_actions-AreSoundItems no_items path i out h = (h, tt, refl)
  scan_actions-AreSoundItems (more_items item items) path i out h =
      let found = scan_item is_builtin item (at_index path i) out in
      let (scanned, same) = scan_goes_on out (scan_actions is_builtin items path (suc i) found) h in
      let (first, rest, on) = scan_actions-AreSoundItems items path (suc i) found scanned in
      let (before, sound) = scan_item-IsSoundItem item (at_index path i) out first in
      (before, (sound, rest), same ∙ on)

  scan_slot-IsSoundSlot :
      (key : Text) (slot : Option JsonValue) (path : Text) (out : List Issue)
      → (scan_slot is_builtin key slot path out).0 ≡ []
      → (out ≡ []) × IsSoundSlot key slot × ((scan_slot is_builtin key slot path out).1 ≡ false)
  scan_slot-IsSoundSlot key none path out h = (h, tt, refl)
  scan_slot-IsSoundSlot key (some json_null) path out h = (h, tt, refl)
  scan_slot-IsSoundSlot key (some (json_bool b)) path out h = (h, tt, refl)
  scan_slot-IsSoundSlot key (some (json_number n)) path out h = (h, tt, refl)
  scan_slot-IsSoundSlot key (some (json_string text)) path out h =
      let (before, sound) = scan_reference-IsBuiltinRef text (at_key path key) out h in
      (before, sound, refl)
  scan_slot-IsSoundSlot key (some (json_object _)) path out h = (h, tt, refl)
  scan_slot-IsSoundSlot key (some (json_array items)) path out h =
      elim (Bool-cases (text_eq key (codes "a"))) [
        | inl e ↦
            let (before, sound, on) =
              scan_actions-AreSoundItems items (path ++ codes ".a") 0 out (rw e at h) in
            (before, (λ k. sound), rw e on)
        | inr e ↦ (rw e at h, (λ k. absurd (apart (sym k ∙ e))), rw e refl)
      ]

  scan_slots-All :
      (keys : List Text) (alt : Fields) (path : Text) (out : List Issue)
      → scan_slots is_builtin keys alt path out ≡ []
      → (out ≡ []) × All (λ key. IsSoundSlot key (get_field key alt)) keys
  unfolding scan_slots
  scan_slots-All [] alt path out h = (h, tt)
  scan_slots-All (key ∷ keys) alt path out h =
      let slot = get_field key alt in
      let found = (scan_slot is_builtin key slot path out).0 in
      elim (Bool-cases (scan_slot is_builtin key slot path out).1) [
        | inl e ↦
            let (before, sound, on) = scan_slot-IsSoundSlot key slot path out (rw e at h) in
            absurd (apart (sym e ∙ on))
        | inr e ↦
            let (first, rest) = scan_slots-All keys alt path found (rw e at h) in
            let (before, sound, on) = scan_slot-IsSoundSlot key slot path out first in
            (before, (sound, rest))
      ]

  scan_alt_refs-IsSoundAlt :
      (alt : JsonValue) (path : Text) (out : List Issue)
      → scan_alt_refs is_builtin alt path out ≡ []
      → (out ≡ []) × IsSoundAlt alt
  unfolding scan_alt_refs
  scan_alt_refs-IsSoundAlt json_null path out h = (h, tt)
  scan_alt_refs-IsSoundAlt (json_bool b) path out h = (h, tt)
  scan_alt_refs-IsSoundAlt (json_number n) path out h = (h, tt)
  scan_alt_refs-IsSoundAlt (json_string text) path out h = (h, tt)
  scan_alt_refs-IsSoundAlt (json_array items) path out h = (h, tt)
  scan_alt_refs-IsSoundAlt (json_object alt) path out h =
      scan_slots-All alt_func_keys alt path out (scanned_on false out _ refl h)

  pub scan_alts-AreSoundAlts :
      (alts : Items) (path : Text) (i : ℕ) (out : List Issue)
      → scan_alts is_builtin alts path i out ≡ []
      → (out ≡ []) × AreSoundAlts alts
  unfolding scan_alts
  scan_alts-AreSoundAlts no_items path i out h = (h, tt)
  scan_alts-AreSoundAlts (more_items alt alts) path i out h =
      let (first, rest) = scan_alts-AreSoundAlts alts path (suc i) _ h in
      let (before, sound) = scan_alt_refs-IsSoundAlt alt (at_index path i) out first in
      (before, (sound, rest))
