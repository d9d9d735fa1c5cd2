-- ===== src/Registry/Bundled.antt =====
-- rs/src/registry.rs: `Registry`, the document of bundled entries. Its reading as JSON is a parameter; the embedded text
-- is a generated file.
use lsp.Base.{
  ℕ, ◌==◌, Bool, false, not, ◌⊎◌, inl, inr, Option, none, some, List, [], ◌∷◌, ◌++◌, map,
  if◌then◌else◌, length, find,
}
use lsp.Base.Text.{Text, codes, text_eq}
use lsp.Base.Decimal.{decimal}
use lsp.Base.Maps.{put}
use lsp.Semantic.Legend.{Overrides}
use lsp.Registry.Entries.{Entry, language_id, is_clean}
use lsp.Registry.Routing.{serves_id}

pub record Registry (Value : Type 0) : Type 0 where
  pub generated : Option Text
  pub count : ℕ
  pub entries : List (Entry Value)

module _ {Value : Type 0} where
  abbrev pub checked : Registry Value → Registry Value ⊎ Text
  checked registry =
      if not (registry.count == length registry.entries)
      then inr (
          codes "registry.json count "
          ++ (decimal registry.count
              ++ (codes " disagrees with its "
                  ++ (decimal (length registry.entries) ++ codes " entries"))))
      else if length registry.entries == 0
      then inr (codes "registry.json has no entries")
      else inl registry

  abbrev pub checked_or : Registry Value ⊎ Text → Registry Value ⊎ Text
  checked_or (inl registry) = checked registry
  checked_or (inr error) = inr (codes "registry.json: " ++ error)

  -- Registry::from_json
  unfoldable pub from_json : (Text → Registry Value ⊎ Text) → Text → Registry Value ⊎ Text
  unfolding decimal
  from_json from_str src = checked_or (from_str src)

  -- Registry::entry
  unfoldable pub entry_of : Registry Value → Text → Option (Entry Value)
  entry_of registry id = find (serves_id id) registry.entries

  abbrev pub is_clean_in : Option (Entry Value) → Bool
  is_clean_in none = false
  is_clean_in (some e) = is_clean e

  unfoldable pub clean : Registry Value → Text → Bool
  unfolding entry_of
  clean registry id = is_clean_in (entry_of registry id)

  abbrev pub overrides_in : Option (Entry Value) → Option Overrides
  overrides_in none = none
  overrides_in (some e) = e.semantic_tokens

  unfoldable pub overrides : Registry Value → Text → Option Overrides
  unfolding entry_of
  overrides registry id = overrides_in (entry_of registry id)

  unfoldable pub language_ids : Registry Value → List Text
  language_ids registry = map language_id registry.entries

  unfoldable pub by_id_from :
      List (Text × Entry Value) → List (Entry Value) → List (Text × Entry Value)
  by_id_from collected [] = collected
  by_id_from collected (e ∷ es) = by_id_from (put text_eq (language_id e) e collected) es

  unfoldable pub by_language_id_map : Registry Value → List (Text × Entry Value)
  unfolding by_id_from
  by_language_id_map registry = by_id_from [] registry.entries

  unfoldable pub to_entries : Registry Value → List (Entry Value)
  to_entries registry = registry.entries
