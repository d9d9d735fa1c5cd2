-- ===== src/Outline/Nesting.antt =====
-- rs/src/outline.rs: `DocumentSymbol`, and `nest`, the stack walk and the assembly of the tree.
use lsp.Base.{
  ℕ, zero, suc, Bool, ◌&&◌, ◌||◌, Option, none, some, List, [], ◌∷◌, ltb, leb, ◌==◌, if◌then◌else◌,
  length,
}
use lsp.Base.Sort.{sort}
use lsp.Base.Text.{Text}
use lsp.Types.{Range}

mutual
  pub data DocumentSymbol : Type 0 where
    -- name, kind, range, selection range and children
    symbol : Text → ℕ → Range → Range → Symbols → DocumentSymbol

  pub data Symbols : Type 0 where
    no_symbols : Symbols
    more_symbols : DocumentSymbol → Symbols → Symbols

-- a symbol with the byte span it nests by
pub record Spanned : Type 0 where
  pub symbol_of : DocumentSymbol
  pub start : ℕ
  pub end : ℕ

abbrev pub max_outline_depth : ℕ
max_outline_depth = 256

-- by start, wider first on ties
abbrev pub before : Spanned → Spanned → Bool
before a b = ltb a.start b.start || (a.start == b.start && leb b.end a.end)

abbrev pub encloses : Spanned → Spanned → Bool
encloses t s = leb t.start s.start && leb s.end t.end

-- a symbol on the stack, by its number
abbrev pub Frame : Type 0
Frame = ℕ × Spanned

-- the loop that pops what does not enclose `s`
unfoldable pub unwind : Spanned → List Frame → List Frame
unwind s [] = []
unwind s (top ∷ stack) = let rest = unwind s stack in if encloses top.1 s then top ∷ stack else rest

-- where the walk puts a symbol
pub data Place : Type 0 where
  left_out at_root : Place
  child_of : ℕ → Place

unfoldable pub place_on : List Frame → Place
place_on stack =
    if leb max_outline_depth (length stack)
    then left_out
    else elim stack [ [] ↦ at_root | ◌∷◌ top stack_rest ↦ child_of top.0 ]

abbrev pub push_on : ℕ → Spanned → List Frame → List Frame
push_on i s stack = if leb max_outline_depth (length stack) then stack else (i, s) ∷ stack

-- the walk over the sorted symbols from number `i` on
unfoldable pub walk : ℕ → List Spanned → List Frame → List (Place × DocumentSymbol)
unfolding unwind place_on
walk i [] stack = []
walk i (s ∷ symbols) stack =
    let stack' = unwind s stack in
    (place_on stack', s.symbol_of) ∷ walk (suc i) symbols (push_on i s stack')

-- `slots`: the symbols that the walk keeps
unfoldable pub kept_symbols : List (Place × DocumentSymbol) → List (Option DocumentSymbol)
kept_symbols [] = []
kept_symbols ((left_out, s) ∷ placed) = none ∷ kept_symbols placed
kept_symbols ((_, s) ∷ placed) = some s ∷ kept_symbols placed

-- `roots`, for symbols numbered from `i` on
unfoldable pub roots_of : ℕ → List (Place × DocumentSymbol) → List ℕ
roots_of i [] = []
roots_of i ((at_root, s) ∷ placed) = i ∷ roots_of (suc i) placed
roots_of i ((_, s) ∷ placed) = roots_of (suc i) placed

-- `kids[parent]`, for symbols numbered from `i` on
unfoldable pub kids_of : ℕ → ℕ → List (Place × DocumentSymbol) → List ℕ
kids_of parent i [] = []
kids_of parent i ((child_of p, s) ∷ placed) =
    let rest = kids_of parent (suc i) placed in if p == parent then i ∷ rest else rest
kids_of parent i ((_, s) ∷ placed) = kids_of parent (suc i) placed

-- Option::take of a slot
unfoldable pub take_slot :
    ℕ → List (Option DocumentSymbol) → List (Option DocumentSymbol) × Option DocumentSymbol
take_slot k [] = ([], none)
take_slot zero (slot ∷ slots) = (none ∷ slots, slot)
take_slot (suc k) (slot ∷ slots) = let (slots', taken) = take_slot k slots in (slot ∷ slots', taken)

abbrev pub join : Option DocumentSymbol → Symbols → Symbols
join none children = children
join (some s) children = more_symbols s children

-- the slots with these numbers, taken in turn, those that are empty left out
unfoldable pub take_slots :
    List ℕ → List (Option DocumentSymbol) → List (Option DocumentSymbol) × Symbols
unfolding take_slot
take_slots [] slots = (slots, no_symbols)
take_slots (k ∷ ks) slots =
    let (slots', taken) = take_slot k slots in
    let (slots'', children) = take_slots ks slots' in (slots'', join taken children)

abbrev pub with_children : Symbols → DocumentSymbol → DocumentSymbol
with_children children (symbol name kind range selection old) =
    symbol name kind range selection children

unfoldable pub set_children :
    ℕ → Symbols → List (Option DocumentSymbol) → List (Option DocumentSymbol)
set_children i children [] = []
set_children zero children (none ∷ slots) = none ∷ slots
set_children zero children (some s ∷ slots) = some (with_children children s) ∷ slots
set_children (suc i) children (slot ∷ slots) = slot ∷ set_children i children slots

abbrev pub attach : ℕ → List ℕ → List (Option DocumentSymbol) → List (Option DocumentSymbol)
attach i [] slots = slots
attach i (k ∷ ks) slots =
    let (slots', children) = take_slots (k ∷ ks) slots in set_children i children slots'

-- the pass from the last symbol to the first: `n` symbols are still to be done
unfoldable pub assemble :
    ℕ → List (Place × DocumentSymbol) → List (Option DocumentSymbol) → List (Option DocumentSymbol)
unfolding take_slots kids_of set_children
assemble zero placed slots = slots
assemble (suc i) placed slots = assemble i placed (attach i (kids_of i 0 placed) slots)

unfoldable pub nest : List Spanned → Symbols
unfolding walk
nest symbols =
    let placed = walk 0 (sort before symbols) [] in
    (take_slots (roots_of 0 placed) (assemble (length placed) placed (kept_symbols placed))).1
