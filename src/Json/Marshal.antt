-- ===== src/Json/Marshal.antt =====
-- `json.Marshal` of maps: the keys in order. A line of the wire is what is printed and one line break.
pub mod Lines
pub mod OneLine
use Prim.Native.String
use herdr_tokens.Prelude.{String, codes, List, [], ◌∷◌, if◌then◌else◌}
use herdr_tokens.Prelude.Result.{Result, ok}
use herdr_tokens.Order.{before}
use herdr_tokens.Json.{
  Json, Items, Fields, null, bool, number, text, array, object, no_items, item, no_fields, field,
}
use herdr_tokens.Json.Print.{print}

unfoldable pub insert_field : String → Json → Fields → Fields
unfolding before
insert_field k v no_fields = field k v no_fields
insert_field k v (field j w fs) =
    if before (codes k) (codes j) then field k v (field j w fs) else field j w (insert_field k v fs)

unfoldable mutual
  unfolding insert_field

  pub ordered : Json → Json
  ordered null = null
  ordered (bool b) = bool b
  ordered (number n) = number n
  ordered (text s) = text s
  ordered (array vs) = array (ordered_items vs)
  ordered (object fs) = object (ordered_fields fs)

  pub ordered_items : Items → Items
  ordered_items no_items = no_items
  ordered_items (item v vs) = item (ordered v) (ordered_items vs)

  pub ordered_fields : Fields → Fields
  ordered_fields no_fields = no_fields
  ordered_fields (field k v fs) = insert_field k (ordered v) (ordered_fields fs)

-- What the program marshals has no value that could not be marshalled.
unfoldable pub marshal : Json → Result String String
unfolding ordered print
marshal v = ok (print (ordered v) "")
