-- ===== src/Loaders/Watch.antt =====
-- rs/src/loaders.rs `watched_file` and rs/src/registry.rs `Router::reloaded_by`: which entries a changed file reloads.
use lsp.Base.{Bool, false, ◌||◌, Option, none, some, List, [], ◌∷◌, if◌then◌else◌, filter}
use lsp.Base.Text.{Text}
use lsp.Registry.Entries.{Entry, Load, grammar_file, spec, file, is_workspace, load}
use lsp.Registry.Router.{Router, all_entries}
use lsp.Loaders.{FilePath, components, lexical_resolve, absolute, same_path}

abbrev pub watched_in : Option FilePath → Option Text → Option Text → Option FilePath
watched_in current_dir (some dir) (some (c ∷ path)) =
    some (lexical_resolve (absolute current_dir (components dir)) (components (c ∷ path)))
watched_in current_dir _ _ = none

abbrev pub is_changed : List FilePath → Option FilePath → Bool
is_changed changed none = false
is_changed [] (some path) = false
is_changed (c ∷ changed) (some path) = same_path c path || is_changed changed (some path)

module _ {Value : Type 0} where
  -- the file that an entry's grammar is loaded from
  abbrev pub file_of : Load Value → Option Text
  file_of (grammar_file path) = some path
  file_of (spec (file path)) = some path
  file_of _ = none

  unfoldable pub watched_file : Option FilePath → Entry Value → Option FilePath
  watched_file current_dir e =
      let watched = watched_in current_dir e.dir (file_of (load e)) in
      if is_workspace e then watched else none

  -- Router::reloaded_by
  unfoldable pub reloaded_by : Option FilePath → Router Value → List FilePath → List (Entry Value)
  unfolding watched_file
  reloaded_by current_dir r changed =
      filter (λ (e : Entry Value). is_changed changed (watched_file current_dir e)) (all_entries r)
