-- ===== src/Json/Parse/Texts.antt =====
-- Strings: white space, the escapes of a character, and the body up to its closing quote.
use Prim.Native.Nat.{compare, Ordering}
use Prim.Native.Char.{Char, char, code, IsLt, IsScalar}
use herdr_tokens.Prelude.{
  ℕ, zero, suc, ◌+◌, ◌*◌, ◌-◌, String, Bool, ◌&&◌, ◌||◌, Option, none, some, ltb, leb, nat_eq,
  if◌then◌else◌,
}
use herdr_tokens.Prelude.Result.{Result, ok, err}

-- `out_of_fuel` has no counterpart in Go.
pub data ParseError : Type 0 where
  syntax out_of_fuel : ParseError

abbrev pub Read {ℓ} : Type ℓ → Type ℓ
Read A = Result ParseError (A × String)

-- The character with a number; U+FFFD if there is none.
abbrev InGap : Ordering → Ordering → Type 0
InGap Ordering.lt o = IsLt o
InGap Ordering.eq _ = ⊥
InGap Ordering.gt _ = ⊥

abbrev pub Scalar : Ordering → Ordering → Ordering → Type 0
Scalar Ordering.lt _ _ = Unit
Scalar Ordering.eq o p = InGap o p
Scalar Ordering.gt o p = InGap o p

abbrev pub scalar? : (a b c : Ordering) → Option (Scalar a b c)
scalar? Ordering.lt b c = some tt
scalar? Ordering.eq Ordering.lt Ordering.lt = some tt
scalar? Ordering.eq Ordering.lt Ordering.eq = none
scalar? Ordering.eq Ordering.lt Ordering.gt = none
scalar? Ordering.eq Ordering.eq c = none
scalar? Ordering.eq Ordering.gt c = none
scalar? Ordering.gt Ordering.lt Ordering.lt = some tt
scalar? Ordering.gt Ordering.lt Ordering.eq = none
scalar? Ordering.gt Ordering.lt Ordering.gt = none
scalar? Ordering.gt Ordering.eq c = none
scalar? Ordering.gt Ordering.gt c = none

abbrev pub char_if : (n : ℕ) → Option (IsScalar n) → Char
char_if n none = char 65533 tt
char_if n (some p) = char n p

unfoldable pub char_of : ℕ → Char
char_of n = char_if n (scalar? (compare n 55296) (compare 57343 n) (compare n 1114112))

abbrev pub is_ws : ℕ → Bool
is_ws n = nat_eq n b' ' || nat_eq n b'\t' || nat_eq n b'\r' || nat_eq n b'\n'

unfoldable pub skip_ws : String → String
skip_ws String.[] = String.[]
skip_ws (String.◌∷◌ c s) = let rest = skip_ws s in if is_ws (code c) then rest else String.◌∷◌ c s

abbrev pub hex_value : ℕ → Option ℕ
hex_value n =
    if leb b'0' n && leb n b'9'
    then some (n - b'0')
    else if leb b'a' n && leb n b'f'
    then some (n - 87)
    else if leb b'A' n && leb n b'F'
    then some (n - 55)
    else none

abbrev pub four_digits : Option ℕ → Option ℕ → Option ℕ → Option ℕ → Option ℕ
four_digits (some a) (some b) (some c) (some d) = some (a * 4096 + b * 256 + c * 16 + d)
four_digits _ _ _ _ = none

abbrev pub with_rest : Option ℕ → String → Option (ℕ × String)
with_rest none s = none
with_rest (some n) s = some (n, s)

-- Four hexadecimal digits.
unfoldable pub hex4 : String → Option (ℕ × String)
hex4 (String.◌∷◌ a (String.◌∷◌ b (String.◌∷◌ c (String.◌∷◌ d s)))) =
    with_rest
      (four_digits (hex_value (code a)) (hex_value (code b)) (hex_value (code c))
        (hex_value (code d)))
      s
hex4 _ = none

-- `\u` and four hexadecimal digits, the second half of a pair.
unfoldable pub low_half : String → Option (ℕ × String)
unfolding hex4
low_half (String.◌∷◌ a (String.◌∷◌ b s)) =
    if nat_eq (code a) b'\\' && nat_eq (code b) b'u' then hex4 s else none
low_half _ = none

-- What stands next in the body of a string: its end, or a character.
pub data Piece : Type 0 where
  bad : Piece
  closing : String → Piece
  one : Char → String → Piece

abbrev pub letter_escape : ℕ → Option Char
letter_escape n =
    if nat_eq n b'"'
    then some "\""
    else if nat_eq n b'\\'
    then some "\\"
    else if nat_eq n b'/'
    then some "/"
    else if nat_eq n b'b'
    then some (char 8 tt)
    else if nat_eq n b'f'
    then some (char 12 tt)
    else if nat_eq n b'n'
    then some "\n"
    else if nat_eq n b'r'
    then some "\r"
    else if nat_eq n b't'
    then some "\t"
    else none

abbrev pub is_high : ℕ → Bool
is_high n = leb 55296 n && ltb n 56320

abbrev pub is_low : ℕ → Bool
is_low n = leb 56320 n && ltb n 57344

-- A high half takes the low half that follows; any other half stands for U+FFFD.
abbrev pub paired : ℕ → String → Option (ℕ × String) → Piece
paired n rest none = one (char_of n) rest
paired n rest (some (m, after)) =
    if is_high n && is_low m
    then one (char_of ((n - 55296) * 1024 + (m - 56320) + 65536)) after
    else one (char_of n) rest

abbrev pub numbered : Option (ℕ × String) → Piece
numbered none = bad
numbered (some (n, rest)) = paired n rest (low_half rest)

abbrev pub lettered : Option Char → String → Piece
lettered none s = bad
lettered (some c) s = one c s

unfoldable pub escaped : String → Piece
unfolding hex4 low_half char_of
escaped String.[] = bad
escaped (String.◌∷◌ c s) =
    if nat_eq (code c) b'u' then numbered (hex4 s) else lettered (letter_escape (code c)) s

unfoldable pub piece : String → Piece
unfolding escaped
piece String.[] = bad
piece (String.◌∷◌ c s) =
    if nat_eq (code c) b'"'
    then closing s
    else if nat_eq (code c) b'\\'
    then escaped s
    else if ltb (code c) 32
    then bad
    else one c s

abbrev pub cons_text : Char → Read String → Read String
cons_text c (err e) = err e
cons_text c (ok (s, rest)) = ok (String.◌∷◌ c s, rest)

-- The body of a string, up to its closing quote.
unfoldable pub read_body : ℕ → String → Read String
unfolding piece
read_body zero s = err out_of_fuel
read_body (suc f) s = elim (piece s) [
  | bad ↦ err syntax
  | closing rest ↦ ok (String.[], rest)
  | one c rest ↦ cons_text c (read_body f rest)
]
