-- ===== src/Json/RoundTrip/Literals.antt =====
-- What a value must be to be printed and read back, and the fuel that reading it takes.
use Prim.Native.Char.{code}
use herdr_tokens.Prelude.{ℕ, suc, ◌+◌, ◌≤◌, String, codes, true, false, ◌≡◌, arith, All}
use herdr_tokens.Regexp.{matches}
use herdr_tokens.Json.{
  Json, Items, Fields, null, bool, number, text, array, object, no_items, item, no_fields, field,
}
use herdr_tokens.Json.Parse.{size, in_number, re_number}

-- The text of a number: of the characters of numbers, and in their grammar.
pub record IsLiteral (n : String) : Type 0 where
  pub spelled : All (λ c. in_number c ≡ true) (codes n)
  pub grammar : matches re_number (codes n) ≡ true

-- Every number in a value is the text of one.
abbrev mutual
  pub HasLiterals : Json → Type 0
  HasLiterals null = Unit
  HasLiterals (bool b) = Unit
  HasLiterals (number n) = IsLiteral n
  HasLiterals (text s) = Unit
  HasLiterals (array vs) = ItemsHaveLiterals vs
  HasLiterals (object fs) = FieldsHaveLiterals fs

  pub ItemsHaveLiterals : Items → Type 0
  ItemsHaveLiterals no_items = Unit
  ItemsHaveLiterals (item v vs) = HasLiterals v × ItemsHaveLiterals vs

  pub FieldsHaveLiterals : Fields → Type 0
  FieldsHaveLiterals no_fields = Unit
  FieldsHaveLiterals (field k v fs) = HasLiterals v × FieldsHaveLiterals fs

-- The text does not go on with a character of a number.
abbrev pub Stops : String → Type 0
Stops String.[] = Unit
Stops (String.◌∷◌ c s) = in_number (code c) ≡ false

-- The fuel that reading a value takes.
abbrev mutual
  pub need : Json → ℕ
  need null = 1
  need (bool b) = 1
  need (number n) = 1
  need (text s) = size s + 2
  need (array vs) = suc (need_items vs)
  need (object fs) = suc (need_fields fs)

  pub need_items : Items → ℕ
  need_items no_items = 1
  need_items (item v vs) = suc (need v + need_items vs)

  pub need_fields : Fields → ℕ
  need_fields no_fields = 1
  need_fields (field k v fs) = suc (size k + 2 + need v + need_fields fs)

pub no_need : (v : Json) → need v ≤ 0 → ⊥
no_need null h = omega arith
no_need (bool b) h = omega arith
no_need (number n) h = omega arith
no_need (text s) h = omega arith
no_need (array vs) h = omega arith
no_need (object fs) h = omega arith

pub no_need_items : (vs : Items) → need_items vs ≤ 0 → ⊥
no_need_items no_items h = omega arith
no_need_items (item v vs) h = omega arith

pub no_need_fields : (fs : Fields) → need_fields fs ≤ 0 → ⊥
no_need_fields no_fields h = omega arith
no_need_fields (field k v fs) h = omega arith
