-- ===== src/Json/Any.antt =====
-- `json.Unmarshal` into an `any`: of the fields with one key the last one is kept, and a number must
-- not be too large for a float64.
pub mod Maps
pub mod Samples
use Prim.Native.String
use herdr_tokens.Prelude.{
  ℕ, ◌+◌, ◌-◌, ◌*◌, ◌^◌, String, ◌==◌, codes, Bool, true, false, ◌&&◌, ◌||◌, List, [], ◌∷◌, leb,
  nat_eq, if◌then◌else◌,
}
use herdr_tokens.Prelude.Result.{Result, ok, err}
use herdr_tokens.Json.{
  Json, Items, Fields, null, bool, number, text, array, object, no_items, item, no_fields, field,
}
use herdr_tokens.Json.Parse.{ParseError, parse}

pub data AnyError : Type 0 where
  malformed : ParseError → AnyError
  too_large : AnyError

-- A decimal number while its text is read: the digits, how many of them are places, the exponent.
record Decimal : Type 0 where
  digits : ℕ
  places : ℕ
  exponent : ℕ
  in_places : Bool
  in_exponent : Bool
  negative : Bool

is_digit : ℕ → Bool
is_digit c = leb b'0' c && leb c b'9'

-- One more character.
read_on : ℕ → Decimal → Decimal
unfolding is_digit
read_on c n =
    if n.in_exponent
    then if is_digit c
      then record n { exponent = n.exponent * 10 + (c - b'0') }
      else if nat_eq c b'-'
      then record n { negative = true }
      else n
    else if is_digit c
    then record n {
      digits = n.digits * 10 + (c - b'0');
      places = if n.in_places then n.places + 1 else n.places;
    }
    else if nat_eq c b'.'
    then record n { in_places = true }
    else if nat_eq c b'e' || nat_eq c b'E'
    then record n { in_exponent = true }
    else n

read_decimal : List ℕ → Decimal → Decimal
unfolding read_on
read_decimal [] n = n
read_decimal (c ∷ s) n = read_decimal s (read_on c n)

-- From here on a number rounds to no finite float64.
abbrev too_much : ℕ
too_much = 2 ^ 1024 - 2 ^ 970

unfoldable pub fits_float64 : String → Bool
unfolding read_decimal
fits_float64 s =
    let n = read_decimal (codes s) (record {
      digits = 0;
      places = 0;
      exponent = 0;
      in_places = false;
      in_exponent = false;
      negative = false;
    }) in
    if n.negative
    then leb (n.digits + 1) (too_much * 10 ^ (n.places + n.exponent))
    else leb (n.digits * 10 ^ n.exponent + 1) (too_much * 10 ^ n.places)

abbrev pub has_key : String → Fields → Bool
has_key k no_fields = false
has_key k (field j v fs) = j == k || has_key k fs

abbrev pub keep_last : String → Json → Fields → Fields
keep_last k v fs = if has_key k fs then fs else field k v fs

unfoldable mutual
  unfolding fits_float64

  pub fits : Json → Bool
  fits null = true
  fits (bool b) = true
  fits (number n) = fits_float64 n
  fits (text s) = true
  fits (array vs) = items_fit vs
  fits (object fs) = fields_fit fs

  pub items_fit : Items → Bool
  items_fit no_items = true
  items_fit (item v vs) = fits v && items_fit vs

  pub fields_fit : Fields → Bool
  fields_fit no_fields = true
  fields_fit (field k v fs) = fits v && fields_fit fs

unfoldable mutual
  pub merged : Json → Json
  merged null = null
  merged (bool b) = bool b
  merged (number n) = number n
  merged (text s) = text s
  merged (array vs) = array (merged_items vs)
  merged (object fs) = object (merged_fields fs)

  pub merged_items : Items → Items
  merged_items no_items = no_items
  merged_items (item v vs) = item (merged v) (merged_items vs)

  pub merged_fields : Fields → Fields
  merged_fields no_fields = no_fields
  merged_fields (field k v fs) = keep_last k (merged v) (merged_fields fs)

abbrev pub any_of : Result ParseError Json → Result AnyError Json
any_of (err e) = err (malformed e)
any_of (ok v) = if fits v then ok (merged v) else err too_large

unfoldable pub decode_any : String → Result AnyError Json
unfolding parse fits merged
decode_any s = any_of (parse s)
