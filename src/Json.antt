-- ===== src/Json.antt =====
-- JSON documents as `encoding/json` reads them, which client.go, schema.go and main.go call. A number is
-- its literal text, and an object its fields in order; `entries` is the map of an object without a
-- repeated key.
pub mod Print
pub mod Parse
pub mod RoundTrip
pub mod Ending
pub mod Marshal
pub mod Any
use herdr_tokens.Prelude.{String, Bool, List, [], ◌∷◌}
use herdr_tokens.Dict.{Dict}

mutual
  pub data Json : Type 0 where
    null : Json
    bool : Bool → Json
    number : String → Json
    text : String → Json
    array : Items → Json
    object : Fields → Json

  pub data Items : Type 0 where
    no_items : Items
    item : Json → Items → Items

  pub data Fields : Type 0 where
    no_fields : Fields
    field : String → Json → Fields → Fields

-- `v.([]any)`
abbrev pub elements : Items → List Json
elements no_items = []
elements (item v rest) = v ∷ elements rest

-- `v.(map[string]any)`
abbrev pub entries : Fields → Dict Json
entries no_fields = []
entries (field k v rest) = (k, v) ∷ entries rest

-- `%T`
abbrev pub type_name : Json → String
type_name null = "<nil>"
type_name (bool _) = "bool"
type_name (number n) = "float64"
type_name (text s) = "string"
type_name (array _) = "[]interface {}"
type_name (object _) = "map[string]interface {}"
