-- ===== src/Json/Print.antt =====
-- `json.Marshal`: compact, with the keys of a map in order, and with the escapes that Go makes, HTML's
-- characters included. What is printed stands in front of a given rest.
use Prim.Native.Char.{Char, code}
use herdr_tokens.Prelude.{
  ℕ, zero, suc, ◌/◌, ◌%◌, String, Bool, true, false, ◌||◌, List, [], ◌∷◌, ltb, nat_eq, any,
  if◌then◌else◌,
}
use herdr_tokens.Json.{
  Json, Items, Fields, null, bool, number, text, array, object, no_items, item, no_fields, field,
}

abbrev pub pick_char : List Char → ℕ → Char
pick_char [] n = "?"
pick_char (c ∷ cs) zero = c
pick_char (c ∷ cs) (suc n) = pick_char cs n

unfoldable pub hex_char : ℕ → Char
hex_char = pick_char (
    "0" ∷ "1" ∷ "2" ∷ "3" ∷ "4" ∷ "5" ∷ "6" ∷ "7" ∷ "8" ∷ "9" ∷ "a" ∷ "b" ∷ "c" ∷ "d" ∷ "e" ∷ "f"
    ∷ [])

-- `\u` and four hexadecimal digits
unfoldable pub put_unicode : ℕ → String → String
unfolding hex_char
put_unicode n rest = String.◌∷◌ "\\" (
    String.◌∷◌ "u" (
      String.◌∷◌ (hex_char (n / 4096)) (
        String.◌∷◌ (hex_char (n / 256 % 16))
          (String.◌∷◌ (hex_char (n / 16 % 16)) (String.◌∷◌ (hex_char (n % 16)) rest)))))

-- How a character is written: itself, a letter after a backslash, or its number.
pub data Escape : Type 0 where
  plain : Escape
  short : Char → Escape
  long : Escape

unfoldable pub escape_of : ℕ → Escape
escape_of n =
    if nat_eq n b'"'
    then short "\""
    else if nat_eq n b'\\'
    then short "\\"
    else if nat_eq n 8
    then short "b"
    else if nat_eq n 12
    then short "f"
    else if nat_eq n b'\n'
    then short "n"
    else if nat_eq n b'\r'
    then short "r"
    else if nat_eq n b'\t'
    then short "t"
    else if ltb n 32 || any (λ m. nat_eq m n) (b'<' ∷ b'>' ∷ b'&' ∷ 8232 ∷ 8233 ∷ [])
    then long
    else plain

abbrev pub put_escaped : Char → Escape → String → String
put_escaped c plain rest = String.◌∷◌ c rest
put_escaped c (short letter) rest = String.◌∷◌ "\\" (String.◌∷◌ letter rest)
put_escaped c long rest = put_unicode (code c) rest

unfoldable pub put_body : String → String → String
unfolding escape_of put_unicode
put_body String.[] rest = rest
put_body (String.◌∷◌ c s) rest = put_escaped c (escape_of (code c)) (put_body s rest)

abbrev pub put_text : String → String → String
put_text s rest = String.◌∷◌ "\"" (put_body s (String.◌∷◌ "\"" rest))

unfoldable pub put_raw : String → String → String
put_raw String.[] rest = rest
put_raw (String.◌∷◌ c s) rest = String.◌∷◌ c (put_raw s rest)

abbrev pub put_comma : Bool → String → String
put_comma first rest = if first then rest else String.◌∷◌ "," rest

abbrev pub put_bool : Bool → String → String
put_bool true rest = put_raw "true" rest
put_bool false rest = put_raw "false" rest

unfoldable mutual
  unfolding put_body put_raw

  pub print : Json → String → String
  print null rest = put_raw "null" rest
  print (bool b) rest = put_bool b rest
  print (number n) rest = put_raw n rest
  print (text s) rest = put_text s rest
  print (array items) rest = String.◌∷◌ "[" (print_items items true rest)
  print (object fs) rest = String.◌∷◌ "{" (print_fields fs true rest)

  pub print_items : Items → Bool → String → String
  print_items no_items first rest = String.◌∷◌ "]" rest
  print_items (item v vs) first rest = put_comma first (print v (print_items vs false rest))

  pub print_fields : Fields → Bool → String → String
  print_fields no_fields first rest = String.◌∷◌ "}" rest
  print_fields (field k v fs) first rest =
      put_comma first (put_text k (String.◌∷◌ ":" (print v (print_fields fs false rest))))
