-- ===== src/Loaders/Clean.antt =====
-- rs/src/loaders.rs `scan_forbidden_keys`: a document without findings has no forbidden key and is not too deep.
use lsp.Base.{
  ℕ, suc, ◌≤◌, ◌≡◌, refl, subst, Bool, true, false, Bool-cases, inl, inr, Option, none, some, List,
  [], ◌∷◌, ◌++◌, ltb, if◌then◌else◌, arith,
}
use lsp.Base.Text.{Text, text_eq}
use lsp.Loaders.Json.{
  JsonValue, Items, Fields, json_null, json_bool, json_number, json_string, json_array, json_object,
  no_items, more_items, no_fields, more_fields, get_field,
}
use lsp.Loaders.Scans.{
  Issue, max_grammar_depth, forbidden_keys, is_listed, scan_forbidden_keys, scan_forbidden_items,
  scan_forbidden_fields, at_index, at_key,
}

-- at a depth, with every container below it at most at the greatest
unfoldable mutual
  pub IsClean : ℕ → JsonValue → Type 0
  IsClean depth (json_array items) = (depth ≤ max_grammar_depth) × AreItemsClean (suc depth) items
  IsClean depth (json_object fields) =
      (depth ≤ max_grammar_depth) × AreFieldsClean (suc depth) fields
  IsClean depth _ = Unit

  pub AreItemsClean : ℕ → Items → Type 0
  AreItemsClean depth no_items = Unit
  AreItemsClean depth (more_items item items) = IsClean depth item × AreItemsClean depth items

  pub AreFieldsClean : ℕ → Fields → Type 0
  AreFieldsClean depth no_fields = Unit
  AreFieldsClean depth (more_fields key child fields) =
      (is_listed key forbidden_keys ≡ false) × IsClean depth child × AreFieldsClean depth fields

something_found : (out : List Issue) (x : Issue) → out ++ x ∷ [] ≡ [] → ⊥
something_found [] x h = cc
something_found (y ∷ out) x h = cc

-- a test that would add a finding has failed
pub unrefused :
    (b : Bool) (out rest : List Issue) (x : Issue)
    → (if b then out ++ x ∷ [] else rest) ≡ []
    → (b ≡ false) × (rest ≡ [])
unrefused true out rest x h = absurd (something_found out x h)
unrefused false out rest x h = (refl, h)

mutual
  unfolding scan_forbidden_keys IsClean

  pub scan_forbidden_keys-IsClean :
      (value : JsonValue) (path : Text) (out : List Issue) (depth : ℕ)
      → scan_forbidden_keys value path out depth ≡ []
      → (out ≡ []) × IsClean depth value
  scan_forbidden_keys-IsClean json_null path out depth h = (h, tt)
  scan_forbidden_keys-IsClean (json_bool b) path out depth h = (h, tt)
  scan_forbidden_keys-IsClean (json_number n) path out depth h = (h, tt)
  scan_forbidden_keys-IsClean (json_string t) path out depth h = (h, tt)
  scan_forbidden_keys-IsClean (json_array items) path out depth h =
      let (low, scanned) = unrefused (ltb max_grammar_depth depth) out _ _ h in
      let (before, clean) = scan_items-IsClean items path out depth 0 scanned in
      (before, (ground arith, clean))
  scan_forbidden_keys-IsClean (json_object fields) path out depth h =
      let (low, scanned) = unrefused (ltb max_grammar_depth depth) out _ _ h in
      let (before, clean) = scan_fields-IsClean fields path out depth scanned in
      (before, (ground arith, clean))

  scan_items-IsClean :
      (items : Items) (path : Text) (out : List Issue) (depth i : ℕ)
      → scan_forbidden_items items path out depth i ≡ []
      → (out ≡ []) × AreItemsClean (suc depth) items
  scan_items-IsClean no_items path out depth i h = (h, tt)
  scan_items-IsClean (more_items item items) path out depth i h =
      let (first, rest) = scan_items-IsClean items path _ depth (suc i) h in
      let (before, clean) =
        scan_forbidden_keys-IsClean item (at_index path i) out (suc depth) first in
      (before, (clean, rest))

  scan_fields-IsClean :
      (fields : Fields) (path : Text) (out : List Issue) (depth : ℕ)
      → scan_forbidden_fields fields path out depth ≡ []
      → (out ≡ []) × AreFieldsClean (suc depth) fields
  scan_fields-IsClean no_fields path out depth h = (h, tt)
  scan_fields-IsClean (more_fields key child fields) path out depth h =
      let (first, rest) = scan_fields-IsClean fields path _ depth h in
      let (allowed, scanned) = unrefused (is_listed key forbidden_keys) out _ _ first in
      let (before, clean) =
        scan_forbidden_keys-IsClean child (at_key path key) out (suc depth) scanned in
      (before, (allowed, clean, rest))

some_same : (v w : JsonValue) → ◌≡◌ {A = Option JsonValue} (some v) (some w) → v ≡ w
some_same v w h = cc

-- what a field holds is as clean as the fields
pub get_field-IsClean :
    (depth : ℕ) (key : Text) (fields : Fields) (value : JsonValue)
    → AreFieldsClean depth fields
    → get_field key fields ≡ some value
    → IsClean depth value
unfolding get_field IsClean
get_field-IsClean depth key no_fields value clean h = absurd (nothing h)
  where
    nothing : ◌≡◌ {A = Option JsonValue} none (some value) → ⊥
    nothing k = cc
get_field-IsClean depth key (more_fields name child fields) value (allowed, clean, rest) h =
    elim (Bool-cases (text_eq name key)) [
      | inl e ↦ subst (IsClean depth) (some_same child value (rw e at h)) clean
      | inr e ↦ get_field-IsClean depth key fields value rest (rw e at h)
    ]
