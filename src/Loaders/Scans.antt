-- ===== src/Loaders/Scans.antt =====
-- rs/src/loaders.rs: the scans of `firewall_spec` over keys and options, each with the findings so far. Whether a name is one of the engine's
-- builtins is a parameter, which the memo of `BuiltinRefs` only remembers.
use lsp.Base.{
  ℕ, suc, Bool, true, false, ◌&&◌, ◌||◌, not, List, [], ◌∷◌, ◌++◌, ltb, leb, ◌==◌, length,
  if◌then◌else◌,
}
use lsp.Base.Text.{Text, Char, codes, text_eq, starts_with}
use lsp.Base.Decimal.{decimal, is_digit}
use lsp.Loaders.Json.{
  JsonValue, Items, Fields, json_string, json_array, json_object, no_items, more_items, no_fields,
  more_fields,
}

abbrev pub max_grammar_rules : ℕ
max_grammar_rules = 5000

abbrev pub max_grammar_alts : ℕ
max_grammar_alts = 10000

abbrev pub max_grammar_depth : ℕ
max_grammar_depth = 100

abbrev pub max_options_issues : ℕ
max_options_issues = 100

abbrev pub forbidden_keys : List Text
forbidden_keys = codes "__proto__" ∷ codes "constructor" ∷ codes "prototype" ∷ []

abbrev pub alt_func_keys : List Text
alt_func_keys =
    codes "b" ∷ codes "p" ∷ codes "r" ∷ codes "a" ∷ codes "e" ∷ codes "h" ∷ codes "c" ∷ []

pub record Issue : Type 0 where
  pub path : Text
  pub message : Text

abbrev pub issue : Text → Text → Issue
issue path message = record { path = path; message = message }

abbrev pub nesting_refusal : Text
nesting_refusal =
    codes
      "grammar nesting deeper than 100 levels: refused (no real GrammarSpec is this deep, and the scans must not be recursed off the stack)"

abbrev pub forbidden : Text → Text
forbidden key =
    codes "forbidden key '"
    ++ (key
        ++ codes
            "': refused to prevent prototype pollution (a serialized grammar is data, never a route to Object.prototype)")

abbrev pub bad_ref : Text → Text → Issue
bad_ref reference path = issue path (
    codes "unknown function reference '"
    ++ (reference ++ codes "': a serialized grammar may only name $-suffixed engine builtins"))

-- `contains`
unfoldable pub is_listed : Text → List Text → Bool
is_listed key [] = false
is_listed key (x ∷ xs) = text_eq x key || is_listed key xs

-- `{path}[{i}]` and `{path}.{key}`
abbrev pub at_index : Text → ℕ → Text
at_index path i = path ++ (b'[' ∷ (decimal i ++ b']' ∷ []))

abbrev pub at_key : Text → Text → Text
at_key path key = path ++ (b'.' ∷ key)

unfoldable mutual
  unfolding is_listed decimal

  pub scan_forbidden_keys : JsonValue → Text → List Issue → ℕ → List Issue
  scan_forbidden_keys (json_array items) path out depth =
      let scanned = scan_forbidden_items items path out depth 0 in
      if ltb max_grammar_depth depth then out ++ issue path nesting_refusal ∷ [] else scanned
  scan_forbidden_keys (json_object fields) path out depth =
      let scanned = scan_forbidden_fields fields path out depth in
      if ltb max_grammar_depth depth then out ++ issue path nesting_refusal ∷ [] else scanned
  scan_forbidden_keys _ path out depth = out

  pub scan_forbidden_items : Items → Text → List Issue → ℕ → ℕ → List Issue
  scan_forbidden_items no_items path out depth i = out
  scan_forbidden_items (more_items item items) path out depth i =
      scan_forbidden_items items path (scan_forbidden_keys item (at_index path i) out (suc depth))
        depth (suc i)

  pub scan_forbidden_fields : Fields → Text → List Issue → ℕ → List Issue
  scan_forbidden_fields no_fields path out depth = out
  scan_forbidden_fields (more_fields key child fields) path out depth =
      let scanned = scan_forbidden_keys child (at_key path key) out (suc depth) in
      scan_forbidden_fields fields path
        (if is_listed key forbidden_keys
          then out ++ issue (at_key path key) (forbidden key) ∷ []
          else scanned)
        depth

abbrev pub is_alphabetic : Char → Bool
is_alphabetic c = (leb b'A' c && leb c b'Z') || (leb b'a' c && leb c b'z')

abbrev pub starts_name : Char → Bool
starts_name c = is_alphabetic c || (c == b'_' || c == b'$')

abbrev pub continues_name : Char → Bool
continues_name c =
    is_alphabetic c || (is_digit c || (c == b'_' || (c == b'$' || (c == b'.' || c == b'-'))))

unfoldable pub name_goes_on : Text → Bool
name_goes_on [] = true
name_goes_on (c ∷ t) = continues_name c && name_goes_on t

unfoldable pub ref_shaped : Text → Bool
unfolding name_goes_on
ref_shaped (c ∷ d ∷ t) = c == b'@' && (starts_name d && name_goes_on t)
ref_shaped (c ∷ []) = false
ref_shaped [] = false

abbrev pub ends_with_char : Char → Text → Bool
ends_with_char c [] = false
ends_with_char c (d ∷ []) = d == c
ends_with_char c (d ∷ e ∷ t) = ends_with_char c (e ∷ t)

-- is_builtin_ref, where a bare engine accepts the name in a slot or not
unfoldable pub is_builtin_ref : (Text → Text → Bool) → Text → Bool
unfolding starts_with
is_builtin_ref bare_engine_accepts name =
    starts_with (b'@' ∷ []) name
    && (ends_with_char b'$' name
        && (bare_engine_accepts (codes "a") name || bare_engine_accepts (codes "c") name))

module _ (is_builtin : Text → Bool) where
  unfoldable mutual
    unfolding ref_shaped decimal text_eq

    pub scan_options_refs : JsonValue → Text → List Issue → ℕ → List Issue
    scan_options_refs (json_string text) path out depth =
        if ltb max_grammar_depth depth || ltb max_options_issues (length out)
        then out
        else if not (ref_shaped text) || (text_eq text (codes "@SKIP") || is_builtin text)
        then out
        else out ++ bad_ref text path ∷ []
    scan_options_refs (json_array items) path out depth =
        let scanned = scan_options_items items path out depth 0 in
        if ltb max_grammar_depth depth || ltb max_options_issues (length out) then out else scanned
    scan_options_refs (json_object fields) path out depth =
        let scanned = scan_options_fields fields path out depth in
        if ltb max_grammar_depth depth || ltb max_options_issues (length out) then out else scanned
    scan_options_refs _ path out depth = out

    pub scan_options_items : Items → Text → List Issue → ℕ → ℕ → List Issue
    scan_options_items no_items path out depth i = out
    scan_options_items (more_items item items) path out depth i =
        scan_options_items items path (scan_options_refs item (at_index path i) out (suc depth))
          depth (suc i)

    pub scan_options_fields : Fields → Text → List Issue → ℕ → List Issue
    scan_options_fields no_fields path out depth = out
    scan_options_fields (more_fields key child fields) path out depth =
        scan_options_fields fields path (scan_options_refs child (at_key path key) out (suc depth))
          depth
