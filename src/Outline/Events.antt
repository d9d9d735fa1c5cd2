-- ===== src/Outline/Events.antt =====
-- rs/src/outline.rs: the rules map, and the loop of `outline` over the rule events.
use lsp.Base.{ℕ, Bool, true, false, Option, none, some, List, [], ◌∷◌, ◌++◌, ◌==◌, if◌then◌else◌}
use lsp.Base.Text.{Text, codes, text_eq}
use lsp.Base.Maps.{lookup, erase, put}
use lsp.Types.{TokenPoint, opened, closed, RuleEvent}

abbrev pub Rules : Type 0
Rules = List (Text × Text)

abbrev pub default_outline_rules : Rules
default_outline_rules = (codes "map", codes "Object") ∷ (codes "list", codes "Array") ∷ []

abbrev pub symbol_kind_array : ℕ
symbol_kind_array = 18

abbrev pub symbol_kind_object : ℕ
symbol_kind_object = 19

-- an entry's `outline_rules` laid over the defaults: a look-up meets them first
unfoldable pub outline_rules : Option Rules → Rules
outline_rules none = default_outline_rules
outline_rules (some overrides) = overrides ++ default_outline_rules

unfoldable pub symbol_kind : Text → ℕ
symbol_kind label = if text_eq label (codes "Array") then symbol_kind_array else symbol_kind_object

-- a symbol before it has positions: its label, its open token and its end token
pub record Bracket : Type 0 where
  pub label : Text
  pub o0 : TokenPoint
  pub end : TokenPoint

-- the rules that are open, by index, and the symbols closed so far
pub record Matching : Type 0 where
  pub open_rules : List (ℕ × TokenPoint)
  pub closed_symbols : List Bracket

abbrev pub new_matching : Matching
new_matching = record { open_rules = []; closed_symbols = [] }

-- where a closed symbol ends: at its close token, or for a forced close without one at its open token
unfoldable pub end_token : Option TokenPoint → Bool → TokenPoint → Option TokenPoint
end_token (some c0) forced o0 = some c0
end_token none true o0 = some o0
end_token none false o0 = none

abbrev pub push_bracket : Text → TokenPoint → Option TokenPoint → List Bracket → List Bracket
push_bracket label o0 none done = done
push_bracket label o0 (some end) done = done ++ record { label = label; o0 = o0; end = end } ∷ []

unfoldable pub open_event : RuleEvent → Matching → Matching
open_event event m = elim event.o0 [
  | none ↦ m
  | some o0 ↦ record m { open_rules = put ◌==◌ event.i o0 m.open_rules }
]

unfoldable pub close_event : Text → RuleEvent → Matching → Matching
unfolding end_token
close_event label event m = elim (lookup ◌==◌ event.i m.open_rules) [
  | none ↦ m
  | some o0 ↦ record {
    open_rules = erase ◌==◌ event.i m.open_rules;
    closed_symbols = push_bracket label o0 (end_token event.c0 event.forced o0) m.closed_symbols;
  }
]

unfoldable pub match_event : Rules → RuleEvent → Matching → Matching
match_event rules event m = elim (lookup text_eq event.name rules) [
  | none ↦ m
  | some label ↦ elim event.state [
    | opened ↦ open_event event m
    | closed ↦ close_event label event m
  ]
]

unfoldable pub match_events : Rules → List RuleEvent → Matching → Matching
match_events rules [] m = m
match_events rules (event ∷ events) m = match_events rules events (match_event rules event m)
