-- ===== src/Registry/Routing.antt =====
-- rs/src/registry.rs: `Router::resolve` and the look-up by media type. `str::to_lowercase` is a parameter.
use lsp.Base.{
  ℕ, ◌+◌, Bool, true, false, ◌||◌, Option, none, some, List, [], ◌∷◌, map, if◌then◌else◌, find,
}
use lsp.Base.Text.{Text, text_eq}
use lsp.Base.Trim.{trim, before_first, to_ascii_lowercase}
use lsp.Registry.Paths.{ext_of, fs_path_of}
use lsp.Registry.Entries.{Entry, language_id, is_routable}
use lsp.Registry.Router.{
  workspace_language_id, workspace_extension, by_language_id, by_extension, by_media_type,
  Resolution, none_found, found, Router, global_entry, candidates,
}
use lsp.Registry.Ties.{tie_break}

unfoldable pub media_essence : Text → Text
unfolding trim before_first to_ascii_lowercase
media_essence media_type = map to_ascii_lowercase (trim (before_first b';' media_type))

abbrev pub is_nil : Text → Bool
is_nil [] = true
is_nil (c ∷ t) = false

-- how often the media types claim `wanted`
unfoldable pub media_hits : Text → List Text → ℕ
unfolding media_essence
media_hits wanted [] = 0
media_hits wanted (x ∷ xs) =
    (if text_eq (media_essence x) wanted then 1 else 0) + media_hits wanted xs

module _ (to_lowercase : Text → Text) where
  -- how often the extensions claim `ext`
  unfoldable pub ext_hits : Text → List Text → ℕ
  ext_hits ext [] = 0
  ext_hits ext (x ∷ xs) = (if text_eq (to_lowercase x) ext then 1 else 0) + ext_hits ext xs

  unfoldable pub claims : List Text → Text → Bool
  claims [] ext = false
  claims (x ∷ xs) ext = text_eq (to_lowercase x) ext || claims xs ext

module _ {Value : Type 0} where
  abbrev pub serves_id : Text → Entry Value → Bool
  serves_id id e = text_eq (language_id e) id

  -- the part of `resolve` that the extension decides among the global entries
  unfoldable pub by_ext : (Text → Text) → Router Value → Option Text → Resolution Value
  unfolding ext_hits
  by_ext to_lowercase r none = none_found
  by_ext to_lowercase r (some ext) =
      tie_break r.global (λ (e : Entry Value). ext_hits to_lowercase ext e.extensions) by_extension

  -- from the client's language id on
  unfoldable pub globally :
      (Text → Text) → Router Value → Option (Entry Value) → Option Text → Resolution Value
  unfolding by_ext
  globally to_lowercase r none ext = by_ext to_lowercase r ext
  globally to_lowercase r (some direct) ext =
      if is_routable direct then found direct by_language_id else by_ext to_lowercase r ext

  abbrev pub find_claimant : (Text → Text) → List (Entry Value) → Option Text → Option (Entry Value)
  find_claimant to_lowercase es none = none
  find_claimant to_lowercase es (some ext) =
      find (λ (e : Entry Value). claims to_lowercase e.extensions ext) es

  abbrev pub first_of :
      Option (Entry Value) → Option (Entry Value) → Resolution Value → Resolution Value
  first_of (some e) by_claim rest = found e workspace_language_id
  first_of none (some e) rest = found e workspace_extension
  first_of none none rest = rest

  -- Router::resolve
  unfoldable pub resolve : (Text → Text) → Router Value → Text → Text → Resolution Value
  unfolding globally
  resolve to_lowercase r id uri =
      let ext = ext_of to_lowercase uri in
      let es = candidates r (fs_path_of uri) in
      first_of (find (serves_id id) es) (find_claimant to_lowercase es ext)
        (globally to_lowercase r (global_entry r id) ext)

  -- Router::resolve_media_type
  unfoldable pub resolve_media_type : Router Value → Text → Resolution Value
  unfolding media_essence
  resolve_media_type r media_type =
      let wanted = media_essence media_type in
      if is_nil wanted
      then none_found
      else tie_break r.global (λ (e : Entry Value). media_hits wanted e.media_types) by_media_type

  abbrev pub or_by_media_type :
      Router Value → Option (Entry Value) → Option Text → Resolution Value → Resolution Value
  or_by_media_type r none (some media_type) resolution = resolve_media_type r media_type
  or_by_media_type r none none resolution = resolution
  or_by_media_type r (some e) media_type resolution = resolution

  -- Router::resolve_with_media_type
  unfoldable pub resolve_with_media_type :
      (Text → Text) → Router Value → Text → Text → Option Text → Resolution Value
  unfolding resolve
  resolve_with_media_type to_lowercase r id uri media_type =
      let resolution = resolve to_lowercase r id uri in
      or_by_media_type r resolution.entry media_type resolution
