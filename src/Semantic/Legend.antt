-- ===== src/Semantic/Legend.antt =====
-- rs/src/semantic.rs: the legend, and the token types that names map to.
use lsp.Base.{
  ℕ, Bool, not, ◌||◌, Option, none, some, List, [], ◌∷◌, if◌then◌else◌, get_elem?, ◌≡◌, refl,
}
use lsp.Base.Text.{Text, codes, text_eq, starts_with}

pub data TokenType : Type 0 where
  string_type number_type comment_type keyword_type operator_type : TokenType
  variable_type macro_type type_type property_type : TokenType

abbrev pub legend : List TokenType
legend =
    string_type ∷ number_type ∷ comment_type ∷ keyword_type ∷ operator_type ∷ variable_type
    ∷ macro_type ∷ type_type ∷ property_type ∷ []

-- TokenType::name
unfoldable pub type_name : TokenType → Text
type_name string_type = codes "string"
type_name number_type = codes "number"
type_name comment_type = codes "comment"
type_name keyword_type = codes "keyword"
type_name operator_type = codes "operator"
type_name variable_type = codes "variable"
type_name macro_type = codes "macro"
type_name type_type = codes "type"
type_name property_type = codes "property"

-- TokenType::index, the discriminant
unfoldable pub index : TokenType → ℕ
index string_type = 0
index number_type = 1
index comment_type = 2
index keyword_type = 3
index operator_type = 4
index variable_type = 5
index macro_type = 6
index type_type = 7
index property_type = 8

find_name : Text → List TokenType → Option TokenType
find_name name [] = none
find_name name (kind ∷ kinds) =
    if text_eq (type_name kind) name then some kind else find_name name kinds

-- TokenType::from_name
unfoldable pub from_name : Text → Option TokenType
unfolding find_name
from_name name = find_name name legend

-- TokenType::from_index
unfoldable pub from_index : ℕ → Option TokenType
from_index i = get_elem? legend i

abbrev pub default_token_types : List (Text × TokenType)
default_token_types =
    (codes "#ST", string_type)
    ∷ (codes "#NR", number_type)
    ∷ (codes "#CM", comment_type)
    ∷ (codes "#VL", keyword_type)
    ∷ (codes "#TX", string_type)
    ∷ (codes "#OB", operator_type)
    ∷ (codes "#CB", operator_type)
    ∷ (codes "#OS", operator_type)
    ∷ (codes "#CS", operator_type)
    ∷ (codes "#CL", operator_type)
    ∷ (codes "#CA", operator_type)
    ∷ []

abbrev pub prefix_types : List (Text × TokenType)
prefix_types =
    (codes "KW_", keyword_type)
    ∷ (codes "LIT_", string_type)
    ∷ (codes "TRIVIA_", comment_type)
    ∷ (codes "PP_", macro_type)
    ∷ (codes "PUNC_", operator_type)
    ∷ []

-- a map from names: the value of the first key that passes the test
unfoldable pub find_by {ℓ} : {V : Type ℓ} → (Text → Bool) → List (Text × V) → Option V
find_by test [] = none
find_by test ((key, value) ∷ rest) = if test key then some value else find_by test rest

unfoldable pub default_token_type : Text → Option TokenType
default_token_type name = find_by (λ canon. text_eq canon name) default_token_types

unfoldable pub prefix_token_type : Text → Option TokenType
prefix_token_type name = elim (find_by (λ prefix. starts_with prefix name) prefix_types) [
  | some kind ↦ some kind
  | none ↦
      if text_eq name (codes "#KW")
      then some keyword_type
      else if text_eq name (codes "ID") || text_eq name (codes "#ID")
      then some variable_type
      else none
]

-- an entry's `semanticTokens` map
abbrev pub Overrides : Type 0
Overrides = List (Text × Text)

unfoldable pub or_else {ℓ} : {A : Type ℓ} → Option A → Option A → Option A
or_else (some a) other = some a
or_else none other = other

unfoldable pub conventional_name : Text → Option Text
unfolding or_else
conventional_name name = elim (or_else (default_token_type name) (prefix_token_type name)) [
  | none ↦ none
  | some kind ↦ some (type_name kind)
]

-- an override that is not empty, if there is one
unfoldable pub override_of : Text → Option Overrides → Option Text
override_of name none = none
override_of name (some overrides) = elim (find_by (λ key. text_eq key name) overrides) [
  | none ↦ none
  | some kind ↦ if not (text_eq kind []) then some kind else none
]

unfoldable pub token_type_name : Text → Option Overrides → Option Text
unfolding conventional_name override_of or_else
token_type_name name overrides = or_else (override_of name overrides) (conventional_name name)

unfoldable pub token_type : Text → Option Overrides → Option TokenType
token_type name overrides = elim (token_type_name name overrides) [
  | none ↦ none
  | some kind ↦ from_name kind
]

-- Every entry of the legend is found again by the name and by the index that go on the wire.
legend_round_trip :
    (kind : TokenType)
    → (from_name (type_name kind) ≡ some kind) × (from_index (index kind) ≡ some kind)
unfolding from_name from_index type_name index text_eq
legend_round_trip string_type = (refl, refl)
legend_round_trip _ = (refl, refl)

-- A token's type is its non-empty override looked up in the legend, and without one its default
-- type or else its prefix convention.
token_type-override :
    (name : Text) (overrides : Option Overrides)
    → token_type name overrides ≡ (elim (override_of name overrides) as (λ _. Option TokenType) [
      | some kind ↦ from_name kind
      | none ↦ or_else (default_token_type name) (prefix_token_type name)
    ])
unfolding token_type token_type_name
token_type-override name overrides =
    go (override_of name overrides) (or_else (default_token_type name) (prefix_token_type name))
  where
    go :
        (o : Option Text) (c : Option TokenType)
        → (elim (or_else o (elim c [ none ↦ none | some kind ↦ some (type_name kind) ]))
            as (λ _. Option TokenType) [ none ↦ none | some kind ↦ from_name kind ])
          ≡ (elim o as (λ _. Option TokenType) [ some kind ↦ from_name kind | none ↦ c ])
    go (some kind) c = refl
    go none none = refl
    go none (some kind) = (legend_round_trip kind).0
