-- ===== src/Loaders/Json.antt =====
-- A JSON document as rs/src/loaders.rs reads it. An object is its fields in the order of the map, each key once; of a
-- number there is what the firewall asks of it.
use lsp.Base.{Bool, Option, none, some, ℕ, suc, if◌then◌else◌}
use lsp.Base.Text.{Text, text_eq}
use lsp.Base.Decimal.{decimal}

-- whether its double is above the engine's schema version, and how JavaScript prints it
pub record Number : Type 0 where
  pub exceeds_schema : Bool
  pub js_text : Text

mutual
  pub data JsonValue : Type 0 where
    json_null : JsonValue
    json_bool : Bool → JsonValue
    json_number : Number → JsonValue
    json_string : Text → JsonValue
    json_array : Items → JsonValue
    json_object : Fields → JsonValue

  pub data Items : Type 0 where
    no_items : Items
    more_items : JsonValue → Items → Items

  pub data Fields : Type 0 where
    no_fields : Fields
    more_fields : Text → JsonValue → Fields → Fields

-- Map::get
unfoldable pub get_field : Text → Fields → Option JsonValue
get_field key no_fields = none
get_field key (more_fields name value fields) =
    if text_eq name key then some value else get_field key fields

unfoldable pub field_count : Fields → ℕ
field_count no_fields = 0
field_count (more_fields name value fields) = suc (field_count fields)

unfoldable pub item_count : Items → ℕ
item_count no_items = 0
item_count (more_items value items) = suc (item_count items)

-- the items under their indices, from `i` on
unfoldable pub numbered : ℕ → Items → Fields
unfolding decimal
numbered i no_items = no_fields
numbered i (more_items value items) = more_fields (decimal i) value (numbered (suc i) items)
