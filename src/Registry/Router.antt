-- ===== src/Registry/Router.antt =====
-- rs/src/registry.rs: `Router`, the tiers and the routing over them. The global tier is a list with an index from
-- language ids, as in the source; `str::to_lowercase` is a parameter.
use lsp.Base.{
  ℕ, leb, Bool, true, false, Option, none, some, List, [], ◌∷◌, ◌++◌, map, if◌then◌else◌, length,
  get_elem?, set, filter,
}
use lsp.Base.Sort.{sort}
use lsp.Base.Text.{Text, text_eq}
use lsp.Base.Maps.{lookup, put}
use lsp.Documents.{utf16_len}
use lsp.Registry.Paths.{contains_path}
use lsp.Registry.Entries.{Entry, language_id, is_routable, scope_of}

pub data Via : Type 0 where
  workspace_language_id workspace_extension by_language_id by_extension by_media_type : Via

pub record Resolution (Value : Type 0) : Type 0 where
  pub entry : Option (Entry Value)
  pub via : Option Via
  pub ambiguous : List Text

pub record Router (Value : Type 0) : Type 0 where
  pub global : List (Entry Value)
  pub by_id : List (Text × ℕ)
  pub workspace : List (Entry Value)

abbrev pub is_unscoped : Option Text → Bool
is_unscoped none = true
is_unscoped (some scope) = false

module _ {Value : Type 0} where
  -- Resolution::none and Resolution::found
  abbrev pub none_found : Resolution Value
  none_found = record { entry = none; via = none; ambiguous = [] }

  abbrev pub found : Entry Value → Via → Resolution Value
  found e via = record { entry = some e; via = some via; ambiguous = [] }

  unfoldable pub put_global_at : Option ℕ → Router Value → Entry Value → Router Value
  put_global_at (some index) r e = record r { global = set r.global index e }
  put_global_at none r e = record r {
    global = r.global ++ e ∷ [];
    by_id = put text_eq (language_id e) (length r.global) r.by_id;
  }

  unfoldable pub put_global : Router Value → Entry Value → Router Value
  unfolding put_global_at
  put_global r e = put_global_at (lookup text_eq (language_id e) r.by_id) r e

  unfoldable pub put_all : Router Value → List (Entry Value) → Router Value
  put_all r [] = r
  put_all r (e ∷ es) = put_all (put_global r e) es

  -- Router::new
  unfoldable pub new_router :
      List (Entry Value) → List (Entry Value) → List (Entry Value) → Router Value
  unfolding put_all
  new_router bundled workspace user =
      put_all (record { global = []; by_id = []; workspace = workspace }) (bundled ++ user)

  abbrev pub entry_at : List (Entry Value) → Option ℕ → Option (Entry Value)
  entry_at entries none = none
  entry_at entries (some index) = get_elem? entries index

  -- Router::get
  unfoldable pub global_entry : Router Value → Text → Option (Entry Value)
  global_entry r id = entry_at r.global (lookup text_eq id r.by_id)

  unfoldable pub set_workspace : Router Value → List (Entry Value) → Router Value
  set_workspace r workspace = record r { workspace = workspace }

  -- Router::all
  unfoldable pub all_entries : Router Value → List (Entry Value)
  all_entries r = r.global ++ r.workspace

  -- a usable entry with the length of its scope, where its scope contains the document
  abbrev pub measured : Option Text → Text → Entry Value → List (Entry Value × ℕ)
  measured none fs_path e = []
  measured (some scope) fs_path e =
      if contains_path scope fs_path then (e, utf16_len scope) ∷ [] else []

  -- the `filter_map` over the usable entries
  unfoldable pub scoped_in : Option Text → List (Entry Value) → List (Entry Value × ℕ)
  scoped_in none es = []
  scoped_in (some fs_path) [] = []
  scoped_in (some fs_path) (e ∷ es) = measured (scope_of e) fs_path e ++ scoped_in (some fs_path) es

  -- longest scope first
  abbrev pub deeper : Entry Value × ℕ → Entry Value × ℕ → Bool
  deeper a b = leb b.1 a.1

  unfoldable pub candidates : Router Value → Option Text → List (Entry Value)
  unfolding scoped_in
  candidates r fs_path =
      let usable = filter is_routable r.workspace in
      map (λ (p : Entry Value × ℕ). p.0) (sort deeper (scoped_in fs_path usable))
      ++ filter (λ (e : Entry Value). is_unscoped (scope_of e)) usable
