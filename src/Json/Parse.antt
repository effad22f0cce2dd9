-- ===== src/Json/Parse.antt =====
-- `json.Unmarshal`, the syntax: one value with white space around it. An object keeps its fields as
-- they stand, repeated keys included; a number keeps its literal. Go's limit of 10,000 open brackets
-- is left out.
mod Texts
mod Starts
unfoldable pub use Texts.*
unfoldable pub use Starts.*
use Prim.Native.Nat.{compare, Ordering}
use Prim.Native.Char.{Char, char, code, IsLt, IsScalar}
use herdr_tokens.Prelude.{
  ℕ, zero, suc, ◌+◌, ◌*◌, ◌-◌, String, Bool, true, false, ◌&&◌, ◌||◌, Option, none, some, [], ◌∷◌,
  codes, ltb, leb, nat_eq, any, if◌then◌else◌,
}
use herdr_tokens.Prelude.Result.{Result, ok, err, ◌>>=◌}
use herdr_tokens.Json.{
  Json, Items, Fields, null, bool, number, text, array, object, no_items, item, no_fields, field,
}

-- What stands where an element may come: the closing bracket, an element after a comma if it is not
-- the first, or neither.
pub data Ahead : Type 0 where
  neither : Ahead
  done : String → Ahead
  element_at : String → Ahead

unfoldable pub ahead : ℕ → Bool → String → Ahead
ahead bracket first String.[] = neither
ahead bracket first (String.◌∷◌ c s) =
    if nat_eq (code c) bracket
    then done s
    else if first
    then element_at (String.◌∷◌ c s)
    else if nat_eq (code c) b','
    then element_at s
    else neither

unfoldable pub expect : ℕ → String → Option String
expect n String.[] = none
expect n (String.◌∷◌ c s) = if nat_eq (code c) n then some s else none

-- A string where a key is expected, and the colon after it.
abbrev pub key_then : Read String → Read String
key_then (err e) = err e
key_then (ok (k, rest)) = elim (expect b':' (skip_ws rest)) [
  | none ↦ err syntax
  | some s ↦ ok (k, s)
]

abbrev pub key_if : ℕ → Option String → Read String
key_if f none = err syntax
key_if f (some s) = key_then (read_body f s)

unfoldable pub read_key : ℕ → String → Read String
unfolding skip_ws expect read_body
read_key f s = key_if f (expect b'"' (skip_ws s))

abbrev pub text_read : Read String → Read Json
text_read (err e) = err e
text_read (ok (s, rest)) = ok (text s, rest)

-- What a call leaves of the input is no structural part of it, so each call costs a unit of fuel.
unfoldable mutual
  unfolding skip_ws start_of read_body ahead read_key

  pub read_value : ℕ → String → Read Json
  read_value zero s = err out_of_fuel
  read_value (suc f) s = elim (start_of (skip_ws s)) [
    | nothing_there ↦ err syntax
    | object_at rest ↦ read_fields f true rest >>= λ (fs, after). ok (object fs, after)
    | array_at rest ↦ read_items f true rest >>= λ (vs, after). ok (array vs, after)
    | text_at rest ↦ text_read (read_body f rest)
    | word_at v found ↦ word_if v found
    | number_at span ↦ number_if span
  ]

  pub read_items : ℕ → Bool → String → Read Items
  read_items zero first s = err out_of_fuel
  read_items (suc f) first s = elim (ahead b']' first (skip_ws s)) [
    | neither ↦ err syntax
    | done rest ↦ ok (no_items, rest)
    | element_at rest ↦ read_value f rest >>= λ (v, after).
        read_items f false after >>= λ (vs, end). ok (item v vs, end)
  ]

  pub read_fields : ℕ → Bool → String → Read Fields
  read_fields zero first s = err out_of_fuel
  read_fields (suc f) first s = elim (ahead b'}' first (skip_ws s)) [
    | neither ↦ err syntax
    | done rest ↦ ok (no_fields, rest)
    | element_at rest ↦ read_key f rest >>= λ (k, value_at). read_value f value_at >>= λ (v, after).
        read_fields f false after >>= λ (fs, end). ok (field k v fs, end)
  ]

abbrev pub size : String → ℕ
size String.[] = 0
size (String.◌∷◌ c s) = suc (size s)

abbrev pub finished : Json → String → Result ParseError Json
finished v String.[] = ok v
finished v (String.◌∷◌ c s) = err syntax

unfoldable pub parse : String → Result ParseError Json
unfolding read_value
parse s = read_value (2 * size s + 2) s >>= λ (v, rest). finished v (skip_ws rest)
