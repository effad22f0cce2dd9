-- ===== src/Schema.antt =====
-- internal/herdrapi/schema.go: the checkers of field values and the closed check of an object. A
-- checker gives the violations that the source's appends to `out`; a reason keeps what its message
-- shows. A Go map is a list of entries in some iteration order.
pub mod TokenRules
pub mod Tables
pub mod Reports
pub mod Closed
pub mod Checkers
pub mod Agreement
pub mod Fixture
pub mod Samples
use herdr_tokens.Prelude.{
  ℕ, suc, String, ◌==◌, ◌+++◌, codes, Bool, true, false, not, ◌&&◌, ◌||◌, Option, none, some, List,
  [], ◌∷◌, ◌++◌, any, is_some, if◌then◌else◌,
}
use herdr_tokens.Dict.{Dict, lookup, each}
use herdr_tokens.Decimal.{itoa}
use herdr_tokens.Json.{Json, null, bool, number, text, array, object, elements, entries, type_name}
use herdr_tokens.Regexp.{Regex, matches}

pub data Reason : Type 0 where
  unknown_field missing_field : Reason
  literal_type : String → String → Reason
  other_literal : String → String → Reason
  pattern_type : String → String → Reason
  other_pattern : String → String → Regex → Reason
  enum_type : List String → String → Reason
  not_allowed : String → String → List String → Reason
  not_string not_number not_bool not_object not_array not_tokens : String → Reason
  bad_token_value : String → Reason
  unknown_token : String → Reason
  root_type : String → Reason

pub record Violation : Type 0 where
  pub path : String
  pub reason : Reason

-- `fieldChecker`, with what it appends as its result
abbrev pub Checker : Type 0
Checker = String → Json → List Violation

pub record FieldSpec : Type 0 where
  pub required : Bool
  pub check : Checker

abbrev pub ObjectSchema : Type 0
ObjectSchema = Dict FieldSpec

-- `addf`, as the list to append
abbrev pub addf : String → Reason → List Violation
addf path reason = record { path = path; reason = reason } ∷ []

-- `addf` under a test
abbrev pub add_unless : Bool → String → Reason → List Violation
add_unless b path reason = if b then [] else addf path reason

abbrev pub child : String → String → String
child path k = path +++ "." +++ k

-- `fmt.Sprintf("%s[%d]", path, i)`
abbrev pub element : String → ℕ → String
element path i = path +++ "[" +++ itoa i +++ "]"

-- A field that is there: unknown, or checked by its rule.
abbrev pub check_field : String → String → Json → Option FieldSpec → List Violation
check_field path k v none = addf (child path k) unknown_field
check_field path k v (some spec) = spec.check (child path k) v

unfoldable pub check_present : String → ObjectSchema → Dict Json → List Violation
unfolding each
check_present path schema = each (λ k v. check_field path k v (lookup k schema))

-- What a rule reports of a field that may not be there.
abbrev pub require : String → String → FieldSpec → Option Json → List Violation
require path name spec found =
    add_unless (not spec.required || is_some found) (child path name) missing_field

unfoldable pub check_required : String → Dict Json → ObjectSchema → List Violation
unfolding each
check_required path m = each (λ name spec. require path name spec (lookup name m))

unfoldable pub validate_object : String → Dict Json → ObjectSchema → List Violation
unfolding check_present check_required
validate_object path m schema = check_present path schema m ++ check_required path m schema

unfoldable pub literal_string : String → Checker
literal_string want path (text s) = add_unless (s == want) path (other_literal want s)
literal_string want path v = addf path (literal_type want (type_name v))

unfoldable pub pattern : String → Regex → Checker
pattern kind re path (text s) = add_unless (matches re (codes s)) path (other_pattern kind s re)
pattern kind re path v = addf path (pattern_type kind (type_name v))

abbrev pub one_of : List String → String → Bool
one_of allowed s = any (λ a. a == s) allowed

unfoldable pub enum_string : String → List String → Checker
enum_string kind allowed path (text s) =
    add_unless (one_of allowed s) path (not_allowed kind s allowed)
enum_string kind allowed path v = addf path (enum_type allowed (type_name v))

unfoldable pub nullable_enum_string : String → List String → Checker
unfolding enum_string
nullable_enum_string kind allowed path null = []
nullable_enum_string kind allowed path v = enum_string kind allowed path v

unfoldable pub type_string : Checker
type_string path (text s) = []
type_string path v = addf path (not_string (type_name v))

unfoldable pub type_number : Checker
type_number path (number n) = []
type_number path v = addf path (not_number (type_name v))

unfoldable pub type_bool : Checker
type_bool path (bool b) = []
type_bool path v = addf path (not_bool (type_name v))

unfoldable pub object_of : ObjectSchema → Checker
unfolding validate_object
object_of schema path (object m) = validate_object path (entries m) schema
object_of schema path v = addf path (not_object (type_name v))

-- The loop over the elements, from index `i` on.
unfoldable pub check_elements : ObjectSchema → String → ℕ → List Json → List Violation
unfolding object_of
check_elements schema path i [] = []
check_elements schema path i (v ∷ rest) =
    object_of schema (element path i) v ++ check_elements schema path (suc i) rest

unfoldable pub array_of_objects : ObjectSchema → Checker
unfolding check_elements
array_of_objects schema path (array items) = check_elements schema path 0 (elements items)
array_of_objects schema path v = addf path (not_array (type_name v))
