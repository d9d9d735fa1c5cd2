-- ===== src/Instances/Mux.antt =====
-- rs/src/instances.rs: `Mux`, the slot that the engine's events are collected in, and the parses that activate it. What
-- an engine call does to the mux is the list of its events and of the calls that its callbacks make; a call that
-- unwinds leaves through the same restoration.
use lsp.Base.{
  ◌≡◌, refl, ap, ◌∙◌, Bool, true, false, Option, none, some, List, [], ◌∷◌, ◌++◌, append-nil,
  append_assoc,
}
use lsp.Types.{TokenPoint, RuleEvent}

-- types.rs
pub record Collected : Type 0 where
  pub lex : List TokenPoint
  pub rules : List RuleEvent

abbrev pub nothing_collected : Collected
nothing_collected = record { lex = []; rules = [] }

abbrev pub Slot : Type 0
Slot = Option Collected

mutual
  -- what happens inside an engine call
  pub data Act : Type 0 where
    lexed : TokenPoint → Act
    rule_done : RuleEvent → Act
    parsed uncollected : Acts → Act

  pub data Acts : Type 0 where
    finished : Acts
    next : Act → Acts → Acts

-- the lex forwarder
unfoldable pub forward_lex : TokenPoint → Slot → Slot
forward_lex token none = none
forward_lex token (some c) = some (record c { lex = c.lex ++ token ∷ [] })

-- the rule forwarder
unfoldable pub forward_rule : RuleEvent → Slot → Slot
forward_rule event none = none
forward_rule event (some c) = some (record c { rules = c.rules ++ event ∷ [] })

-- each of these gives the new slot and what was in it
unfoldable pub begin : Slot → Slot × Slot
begin slot = (some nothing_collected, slot)

unfoldable pub end_collecting : Slot → Slot × Slot
end_collecting slot = (none, slot)

unfoldable pub restore : Slot → Slot → Slot × Slot
restore previous slot = (previous, slot)

unfoldable pub is_active : Slot → Bool
is_active none = false
is_active (some c) = true

abbrev pub or_default : Slot → Collected
or_default none = nothing_collected
or_default (some c) = c

-- Activation::new, the call, and Activation::finish or its drop
abbrev pub activated : Slot → (Slot → Slot) → Slot → Slot × Slot
activated collector call slot =
    let (active, previous) = restore collector slot in restore previous (call active)

unfoldable mutual
  unfolding forward_lex forward_rule restore

  pub run_act : Act → Slot → Slot
  run_act (lexed token) slot = forward_lex token slot
  run_act (rule_done event) slot = forward_rule event slot
  run_act (parsed acts) slot = (activated (some nothing_collected) (run acts) slot).0
  run_act (uncollected acts) slot = (activated none (run acts) slot).0

  pub run : Acts → Slot → Slot
  run finished slot = slot
  run (next act acts) slot = run acts (run_act act slot)

-- Mux::parse, of the slot it leaves and what it collected
unfoldable pub parse : Acts → Slot → Slot × Collected
unfolding run restore
parse acts slot =
    let (slot', collected) = activated (some nothing_collected) (run acts) slot in
    (slot', or_default collected)

-- Mux::without_collector
unfoldable pub without_collector : Acts → Slot → Slot
unfolding run restore
without_collector acts slot = (activated none (run acts) slot).0

-- the events of a call itself, and not of the calls made inside it
unfoldable pub own_tokens : Acts → List TokenPoint
own_tokens finished = []
own_tokens (next (lexed token) acts) = token ∷ own_tokens acts
own_tokens (next _ acts) = own_tokens acts

unfoldable pub own_rules : Acts → List RuleEvent
own_rules finished = []
own_rules (next (rule_done event) acts) = event ∷ own_rules acts
own_rules (next _ acts) = own_rules acts

-- the slot after a call that found `slot`
abbrev after : Acts → Slot → Slot
after acts none = none
after acts (some c) =
    some (record { lex = c.lex ++ own_tokens acts; rules = c.rules ++ own_rules acts })

run-after : (acts : Acts) (slot : Slot) → run acts slot ≡ after acts slot
unfolding run own_tokens own_rules forward_lex forward_rule
run-after finished none = refl
run-after finished (some c) = rw (append-nil c.lex, append-nil c.rules) refl
run-after (next (lexed token) acts) none = run-after acts none
run-after (next (lexed token) acts) (some c) =
    run-after acts (some (record c { lex = c.lex ++ token ∷ [] }))
    ∙ ap (λ (l : List TokenPoint). some (record { lex = l; rules = c.rules ++ own_rules acts }))
        (append_assoc c.lex (token ∷ []) (own_tokens acts))
run-after (next (rule_done event) acts) none = run-after acts none
run-after (next (rule_done event) acts) (some c) =
    run-after acts (some (record c { rules = c.rules ++ event ∷ [] }))
    ∙ ap (λ (l : List RuleEvent). some (record { lex = c.lex ++ own_tokens acts; rules = l }))
        (append_assoc c.rules (event ∷ []) (own_rules acts))
run-after (next (parsed inner) acts) none = run-after acts none
run-after (next (parsed inner) acts) (some c) = run-after acts (some c)
run-after (next (uncollected inner) acts) none = run-after acts none
run-after (next (uncollected inner) acts) (some c) = run-after acts (some c)

-- A parse, whatever nested parses and uncollected calls its callbacks make, leaves the collector
-- that was active as it was and collects just its own events in order; a call without a collector
-- leaves it too.
pub parse-own :
    (acts : Acts) (slot : Slot)
    → (parse acts slot ≡ (slot, record { lex = own_tokens acts; rules = own_rules acts }))
      × (without_collector acts slot ≡ slot)
unfolding parse without_collector
parse-own acts slot =
    (ap (λ (s : Slot). (slot, or_default s)) (run-after acts (some nothing_collected)), refl)
