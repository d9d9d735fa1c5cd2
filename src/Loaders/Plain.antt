-- ===== src/Loaders/Plain.antt =====
-- rs/src/loaders.rs `scan_options_refs`: options without findings name no function but the engine's builtins.
use lsp.Base.{
  ℕ, suc, ◌≤◌, ◌≡◌, refl, Bool, true, false, ◌||◌, not, Bool-cases, ◌⊎◌, inl, inr, List, [], ◌∷◌,
  ◌++◌, ltb, length, if◌then◌else◌, arith,
}
use lsp.Base.Text.{Text, codes, text_eq}
use lsp.Loaders.Json.{
  JsonValue, Items, Fields, json_null, json_bool, json_number, json_string, json_array, json_object,
  no_items, more_items, no_fields, more_fields,
}
use lsp.Loaders.Scans.{
  Issue, bad_ref, max_grammar_depth, max_options_issues, ref_shaped, scan_options_refs,
  scan_options_items, scan_options_fields, at_index, at_key,
}
use lsp.Loaders.Clean.{IsClean, AreItemsClean, AreFieldsClean}

-- the scan of a few findings goes on
pub scanned_on :
    (other : Bool) (out rest : List Issue)
    → other ≡ false
    → (if other || ltb max_options_issues (length out) then out else rest) ≡ []
    → rest ≡ []
scanned_on true out rest h k = absurd (apart h)
  where
    apart : true ≡ false → ⊥
    apart e = cc
scanned_on false [] rest h k = k
scanned_on false (x ∷ out) rest h k =
    elim (Bool-cases (ltb max_options_issues (length (x ∷ out)))) [
      | inl e ↦ absurd (something (rw e at k))
      | inr e ↦ rw e at k
    ]
  where
    something : x ∷ out ≡ [] → ⊥
    something e = cc

module _ (is_builtin : Text → Bool) where
  -- every text that looks like a reference is the merge sentinel or a builtin
  abbrev pub IsPlainText : Text → Type 0
  IsPlainText text =
      ref_shaped text ≡ true → (text_eq text (codes "@SKIP") ≡ true) ⊎ (is_builtin text ≡ true)

  unfoldable mutual
    pub IsPlain : JsonValue → Type 0
    IsPlain (json_string text) = IsPlainText text
    IsPlain (json_array items) = AreItemsPlain items
    IsPlain (json_object fields) = AreFieldsPlain fields
    IsPlain _ = Unit

    pub AreItemsPlain : Items → Type 0
    AreItemsPlain no_items = Unit
    AreItemsPlain (more_items item items) = IsPlain item × AreItemsPlain items

    pub AreFieldsPlain : Fields → Type 0
    AreFieldsPlain no_fields = Unit
    AreFieldsPlain (more_fields key child fields) = IsPlain child × AreFieldsPlain fields

  plain_of :
      (shaped skip builtin : Bool)
      → not shaped || (skip || builtin) ≡ true
      → shaped ≡ true
      → (skip ≡ true) ⊎ (builtin ≡ true)
  plain_of true true builtin h k = inl refl
  plain_of true false builtin h k = inr h
  plain_of false skip builtin h k = absurd (apart k)
    where
      apart : false ≡ true → ⊥
      apart e = cc

  passed :
      (test : Bool) (out : List Issue) (x : Issue)
      → (if test then out else out ++ x ∷ []) ≡ []
      → (out ≡ []) × (test ≡ true)
  passed true out x h = (h, refl)
  passed false [] x h = absurd (something h)
    where
      something : x ∷ [] ≡ [] → ⊥
      something e = cc
  passed false (y ∷ out) x h = absurd (something h)
    where
      something : y ∷ (out ++ x ∷ []) ≡ [] → ⊥
      something e = cc

  within : (depth : ℕ) → depth ≤ max_grammar_depth → ltb max_grammar_depth depth ≡ false
  within depth h = ground arith

  mutual
    unfolding scan_options_refs IsPlain IsClean

    pub scan_options_refs-IsPlain :
        (value : JsonValue) (path : Text) (out : List Issue) (depth : ℕ)
        → depth ≤ max_grammar_depth
        → IsClean (suc depth) value
        → scan_options_refs is_builtin value path out depth ≡ []
        → (out ≡ []) × IsPlain value
    scan_options_refs-IsPlain json_null path out depth low clean h = (h, tt)
    scan_options_refs-IsPlain (json_bool b) path out depth low clean h = (h, tt)
    scan_options_refs-IsPlain (json_number n) path out depth low clean h = (h, tt)
    scan_options_refs-IsPlain (json_string text) path out depth low clean h =
        let scanned = scanned_on (ltb max_grammar_depth depth) out _ (within depth low) h in
        let (before, plain) =
          passed (not (ref_shaped text) || (text_eq text (codes "@SKIP") || is_builtin text)) out
            (bad_ref text path) scanned in
        (before, plain_of (ref_shaped text) (text_eq text (codes "@SKIP")) (is_builtin text) plain)
    scan_options_refs-IsPlain (json_array items) path out depth low (deep, clean) h =
        scan_items-IsPlain items path out depth 0 deep clean
          (scanned_on (ltb max_grammar_depth depth) out _ (within depth low) h)
    scan_options_refs-IsPlain (json_object fields) path out depth low (deep, clean) h =
        scan_fields-IsPlain fields path out depth deep clean
          (scanned_on (ltb max_grammar_depth depth) out _ (within depth low) h)

    scan_items-IsPlain :
        (items : Items) (path : Text) (out : List Issue) (depth i : ℕ)
        → suc depth ≤ max_grammar_depth
        → AreItemsClean (suc (suc depth)) items
        → scan_options_items is_builtin items path out depth i ≡ []
        → (out ≡ []) × AreItemsPlain items
    scan_items-IsPlain no_items path out depth i low clean h = (h, tt)
    scan_items-IsPlain (more_items item items) path out depth i low (first_clean, rest_clean) h =
        let (first, rest) = scan_items-IsPlain items path _ depth (suc i) low rest_clean h in
        let (before, plain) =
          scan_options_refs-IsPlain item (at_index path i) out (suc depth) low first_clean first in
        (before, (plain, rest))

    scan_fields-IsPlain :
        (fields : Fields) (path : Text) (out : List Issue) (depth : ℕ)
        → suc depth ≤ max_grammar_depth
        → AreFieldsClean (suc (suc depth)) fields
        → scan_options_fields is_builtin fields path out depth ≡ []
        → (out ≡ []) × AreFieldsPlain fields
    scan_fields-IsPlain no_fields path out depth low clean h = (h, tt)
    scan_fields-IsPlain (more_fields key child fields) path out depth low
          (allowed, child_clean, rest_clean) h =
        let (first, rest) = scan_fields-IsPlain fields path _ depth low rest_clean h in
        let (before, plain) =
          scan_options_refs-IsPlain child (at_key path key) out (suc depth) low child_clean first in
        (before, (plain, rest))
