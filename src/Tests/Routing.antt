-- ===== src/Tests/Routing.antt =====
-- The theorems on routing, on the gate and on the mux, at inputs that meet their hypotheses.
use lsp.Base.{◌++◌, true, none, some, [], ℕ, ◌≡◌, ◌↔◌, inl, refl, ◌∷◌, arith}
use lsp.Base.Text.{Text, codes, bytes}
use lsp.Types.{TokenPoint}
use lsp.Registry.Paths.{fs_path_of, drop_drive, contains_path}
use lsp.Registry.Escapes.{escape, fs_path_of-escape}
use lsp.Registry.Folders.{IsInside}
use lsp.Registry.FolderText.{IsFolder, contains_path-IsFolder}
use lsp.Registry.Entries.{Entry, new_entry, workspace_source}
use lsp.Registry.Router.{Router, new_router, global_entry, by_extension}
use lsp.Registry.Ties.{tie_break}
use lsp.Registry.Claimants.{first_claimant, claimed, tie_break-claimed}
use lsp.Registry.Tiers.{last_with, IsIndexed, new_router-last_with}
use lsp.Registry.Routing.{resolve}
use lsp.Registry.Answers.{IsMostSpecific, resolve-IsMostSpecific}
use lsp.Instances.Gate.{
  Threads, entered, at_start, Reach, start, later, enter, set_turns, mutual_exclusion,
  enter_when_quiet,
}
use lsp.Instances.Mux.{
  Acts, finished, next, lexed, parsed, Slot, parse, without_collector, own_tokens, own_rules,
  nothing_collected, parse-own,
}

abbrev host : Text
host = codes "server"

-- "a b" and an e with an acute accent
abbrev file_path : Text
file_path = codes "a b" ++ 233 ∷ []

fs_path_of-escape_example :
    fs_path_of (codes "file://" ++ (host ++ escape (bytes (b'/' ∷ file_path))))
    ≡ some (drop_drive (b'/' ∷ file_path))
fs_path_of-escape_example =
    fs_path_of-escape host file_path (refl, (refl, (refl, (refl, (refl, (refl, tt))))))
      (inl (omega arith), (inl (omega arith), (inl (omega arith), (inl (omega arith), tt))))

contains_path-IsFolder_example :
    (folder : Text) × IsFolder (codes "/work/") folder
    × ((contains_path (codes "/work/") (codes "/work/a.json") ≡ true)
        ↔ IsInside folder (codes "/work/a.json"))
contains_path-IsFolder_example = contains_path-IsFolder (codes "/work/") (codes "/work/a.json")

abbrev same_case : Text → Text
same_case t = t

abbrev json_entry : Entry ℕ
json_entry = record (new_entry (codes "@tabnas/json")) { extensions = codes ".json" ∷ [] }

abbrev user_entry : Entry ℕ
user_entry = record (new_entry (codes "json")) { extensions = codes ".json" ∷ codes ".json" ∷ [] }

abbrev local_entry : Entry ℕ
local_entry = record (new_entry (codes "json")) {
  extensions = codes ".json" ∷ [];
  source = workspace_source;
  dir = some (codes "/work");
}

abbrev router : Router ℕ
router = new_router (json_entry ∷ []) (local_entry ∷ []) (user_entry ∷ [])

new_router-last_with_example :
    (global_entry (new_router (json_entry ∷ []) (local_entry ∷ []) (user_entry ∷ [])) (codes "json")
      ≡ last_with (codes "json") ((json_entry ∷ []) ++ user_entry ∷ []) none)
    × IsIndexed (new_router (json_entry ∷ []) (local_entry ∷ []) (user_entry ∷ []))
new_router-last_with_example =
    new_router-last_with (json_entry ∷ []) (local_entry ∷ []) (user_entry ∷ []) (codes "json")

abbrev two_claims : Entry ℕ → ℕ
two_claims e = 2

tie_break-claimed_example :
    tie_break (json_entry ∷ user_entry ∷ []) two_claims by_extension
    ≡ claimed two_claims by_extension (first_claimant two_claims (json_entry ∷ user_entry ∷ []))
tie_break-claimed_example = tie_break-claimed (json_entry ∷ user_entry ∷ []) two_claims by_extension

resolve-IsMostSpecific_example :
    IsMostSpecific router
      (fs_path_of (codes "file:///work/a.json"))
      (codes "json")
      (resolve same_case router (codes "json") (codes "file:///work/a.json"))
resolve-IsMostSpecific_example =
    resolve-IsMostSpecific same_case router (codes "json") (codes "file:///work/a.json")

-- thread 3 has entered twice
abbrev entered_once : Threads
entered_once = record {
  held = record { thread = some 3; depth = 1 };
  turns = set_turns at_start.turns 3 1;
}

abbrev entered_twice : Threads
entered_twice = record {
  held = record { thread = some 3; depth = 2 };
  turns = set_turns entered_once.turns 3 2;
}

entered_twice-Reach : Reach entered_twice
unfolding enter
entered_twice-Reach = later (later start (entered 3 _ refl)) (entered 3 _ refl)

abbrev worker : ℕ
worker = 3

mutual_exclusion_example : worker ≡ worker
mutual_exclusion_example =
    mutual_exclusion entered_twice-Reach worker worker (omega arith) (omega arith)

enter_when_quiet_example : enter 3 entered_twice.held ≡ some (record { thread = some 3; depth = 3 })
enter_when_quiet_example = enter_when_quiet entered_twice-Reach 3 (λ j apart. ground (arith, apart))

abbrev brace : TokenPoint
brace = record { name = codes "#OB"; si = 0; ri = 1; ci = 1; len = 1; src = codes "{" }

-- a call that lexes a token, parses something else, and lexes another token
abbrev nested_call : Acts
nested_call =
    next (lexed brace) (next (parsed (next (lexed brace) finished)) (next (lexed brace) finished))

abbrev outer_slot : Slot
outer_slot = some nothing_collected

parse-own_example :
    (parse nested_call outer_slot
      ≡ (outer_slot, record { lex = own_tokens nested_call; rules = own_rules nested_call }))
    × (without_collector nested_call outer_slot ≡ outer_slot)
parse-own_example = parse-own nested_call outer_slot

nested_call-own : own_tokens nested_call ≡ brace ∷ brace ∷ []
unfolding own_tokens
nested_call-own = refl
