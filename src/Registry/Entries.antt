-- ===== src/Registry/Entries.antt =====
-- rs/src/types.rs: `Entry` with its accessors, how a grammar is loaded, and the routing scope. A path is its text, and
-- the JSON of options and inline specs is a type of values.
use lsp.Base.{Bool, true, false, not, ◌&&◌, Option, none, some, List, [], ◌∷◌}
use lsp.Base.Text.{Text, codes, text_eq}
use lsp.Semantic.Legend.{Overrides}
use lsp.Registry.Paths.{strip_prefix}

pub data EntrySource : Type 0 where
  bundled user workspace_source : EntrySource

pub data SpecSource (Value : Type 0) : Type 0 where
  file : Text → SpecSource Value
  inline : Value → SpecSource Value

pub data Load (Value : Type 0) : Type 0 where
  module_named grammar_file : Text → Load Value
  spec : SpecSource Value → Load Value

pub data Scope : Type 0 where
  dir_scope session : Scope
  folder_scope : Text → Scope

pub record Entry (Value : Type 0) : Type 0 where
  pub name : Text
  pub declared_id : Option Text
  pub extensions : List Text
  pub media_types : List Text
  pub base : Option Text
  pub declared_plugin_kind : Option Text
  pub declared_grammar_kind : Option Text
  pub declared_lex_stream : Option Text
  pub semantic_tokens : Option Overrides
  pub outline_rules : Option (List (Text × Text))
  pub sync_groups : Option (List Text)
  pub enabled : Option Bool
  pub error_codes : List Text
  pub declared_load : Option (Load Value)
  pub options : Option Value
  pub stack : Option (List Text)
  pub source : EntrySource
  pub dir : Option Text
  pub scope : Scope

-- a declared field, where an empty text counts as none
abbrev pub declared : Option Text → Option Text
declared none = none
declared (some []) = none
declared (some (c ∷ t)) = some (c ∷ t)

abbrev pub unwrap_text : Option Text → Text → Text
unwrap_text none default = default
unwrap_text (some t) default = t

-- `enabled != Some(false)`
abbrev pub not_disabled : Option Bool → Bool
not_disabled (some false) = false
not_disabled (some true) = true
not_disabled none = true

abbrev pub scope_folder : Scope → Option Text → Option Text
scope_folder dir_scope dir = dir
scope_folder session dir = none
scope_folder (folder_scope folder) dir = some folder

abbrev pub is_from_workspace : EntrySource → Bool
is_from_workspace workspace_source = true
is_from_workspace _ = false

module _ {Value : Type 0} where
  -- Entry::new
  unfoldable pub new_entry : Text → Entry Value
  new_entry name = record {
    name = name;
    declared_id = none;
    extensions = [];
    media_types = [];
    base = none;
    declared_plugin_kind = none;
    declared_grammar_kind = none;
    declared_lex_stream = none;
    semantic_tokens = none;
    outline_rules = none;
    sync_groups = none;
    enabled = none;
    error_codes = [];
    declared_load = none;
    options = none;
    stack = none;
    source = bundled;
    dir = none;
    scope = dir_scope;
  }

  unfoldable pub language_id : Entry Value → Text
  unfolding strip_prefix
  language_id e =
      unwrap_text (declared e.declared_id)
        (unwrap_text (strip_prefix (codes "@tabnas/") e.name) e.name)

  unfoldable pub lex_stream : Entry Value → Text
  lex_stream e = unwrap_text (declared e.declared_lex_stream) (codes "clean")

  unfoldable pub is_clean : Entry Value → Bool
  unfolding lex_stream
  is_clean e = text_eq (lex_stream e) (codes "clean")

  unfoldable pub plugin_kind : Entry Value → Text
  plugin_kind e = unwrap_text (declared e.declared_plugin_kind) (codes "grammar")

  unfoldable pub grammar_kind : Entry Value → Text
  grammar_kind e = unwrap_text (declared e.declared_grammar_kind) (codes "closure")

  unfoldable pub is_enabled : Entry Value → Bool
  is_enabled e = not_disabled e.enabled

  unfoldable pub is_routable : Entry Value → Bool
  unfolding is_enabled plugin_kind
  is_routable e = is_enabled e && not (text_eq (plugin_kind e) (codes "modifier"))

  abbrev pub load_or : Option (Load Value) → Text → Load Value
  load_or none name = module_named name
  load_or (some how) name = how

  unfoldable pub load : Entry Value → Load Value
  load e = load_or e.declared_load e.name

  unfoldable pub routing_scope : Entry Value → Option Text
  routing_scope e = scope_folder e.scope e.dir

  unfoldable pub is_workspace : Entry Value → Bool
  is_workspace e = is_from_workspace e.source

  -- registry.rs: `scope_of`, where an empty sandbox folder counts as none
  unfoldable pub scope_of : Entry Value → Option Text
  scope_of e = scope_folder e.scope (declared e.dir)
