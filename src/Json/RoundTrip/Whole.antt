-- ===== src/Json/RoundTrip/Whole.antt =====
-- The fuel of `parse` is enough for what was printed, so it reads the whole of it.
use Prim.Native.Char.{Char, code}
use herdr_tokens.Prelude.{suc, ◌+◌, ◌*◌, ◌≤◌, String, Bool, true, false, ◌≡◌, refl, arith}
use herdr_tokens.Prelude.Result.{ok}
use herdr_tokens.Json.{
  Json, Items, Fields, null, bool, number, text, array, object, no_items, item, no_fields, field,
}
use herdr_tokens.Json.Print.{
  put_escaped, put_body, put_text, put_raw, put_comma, print, print_items, print_fields, escape_of,
  plain, short, long, put_unicode, Escape,
}
use herdr_tokens.Json.Parse.{size, skip_ws, parse}
use herdr_tokens.Json.RoundTrip.Literals.{
  IsLiteral, HasLiterals, ItemsHaveLiterals, FieldsHaveLiterals, need, need_items, need_fields,
}
use herdr_tokens.Json.RoundTrip.Starts.{no_empty_literal}
use herdr_tokens.Json.RoundTrip.Values.{read_value-print}

size-put_escaped : (c : Char) (e : Escape) (s : String) → suc (size s) ≤ size (put_escaped c e s)
unfolding put_unicode
size-put_escaped c plain s = omega arith
size-put_escaped c (short d) s = omega arith
size-put_escaped c long s = omega arith

size-put_body : (s rest : String) → size s + size rest ≤ size (put_body s rest)
unfolding put_body
size-put_body String.[] rest = omega arith
size-put_body (String.◌∷◌ c s) rest =
    omega (arith, size-put_body s rest, size-put_escaped c (escape_of (code c)) (put_body s rest))

size-put_text : (s rest : String) → size s + 2 + size rest ≤ size (put_text s rest)
size-put_text s rest = omega (arith, size-put_body s (String.◌∷◌ "\"" rest))

size-put_raw : (s rest : String) → size (put_raw s rest) ≡ size s + size rest
unfolding put_raw
size-put_raw String.[] rest = omega arith
size-put_raw (String.◌∷◌ c s) rest = omega (arith, size-put_raw s rest)

literal_size : (n : String) → IsLiteral n → 1 ≤ size n
literal_size String.[] lit = absurd (no_empty_literal lit)
literal_size (String.◌∷◌ c n) lit = omega arith

size-put_comma : (first : Bool) (s : String) → size s ≤ size (put_comma first s)
size-put_comma true s = omega arith
size-put_comma false s = omega arith

mutual
  unfolding print

  size-print :
      (v : Json) (rest : String)
      → HasLiterals v
      → need v + 1 + 2 * size rest ≤ 2 * size (print v rest)
  size-print null rest h = omega (arith, size-put_raw "null" rest)
  size-print (bool true) rest h = omega (arith, size-put_raw "true" rest)
  size-print (bool false) rest h = omega (arith, size-put_raw "false" rest)
  size-print (number n) rest h = omega (arith, size-put_raw n rest, literal_size n h)
  size-print (text s) rest h = omega (arith, size-put_text s rest)
  size-print (array vs) rest h = omega (arith, size-print_items vs true rest h)
  size-print (object fs) rest h = omega (arith, size-print_fields fs true rest h)

  size-print_items :
      (vs : Items) (first : Bool) (rest : String)
      → ItemsHaveLiterals vs
      → need_items vs + 2 * size rest ≤ 2 * size (print_items vs first rest)
  size-print_items no_items first rest h = omega arith
  size-print_items (item v vs) first rest (h, hs) =
      let after = print_items vs false rest in
      omega (
        arith,
        size-print_items vs false rest hs,
        size-print v after h,
        size-put_comma first (print v after),
      )

  size-print_fields :
      (fs : Fields) (first : Bool) (rest : String)
      → FieldsHaveLiterals fs
      → need_fields fs + 2 * size rest ≤ 2 * size (print_fields fs first rest)
  size-print_fields no_fields first rest h = omega arith
  size-print_fields (field k v fs) first rest (h, hs) =
      let after = print_fields fs false rest in
      let value = String.◌∷◌ ":" (print v after) in
      omega (
        arith,
        size-print_fields fs false rest hs,
        size-print v after h,
        size-put_text k value,
        size-put_comma first (put_text k value),
      )

-- What `json.Marshal` printed, with a line break after it or none, parses back to the value.
pub parse-print : (v : Json) → HasLiterals v → parse (print v "") ≡ ok v
unfolding parse skip_ws
parse-print v h =
    rw (read_value-print v "" (2 * size (print v "") + 2) h tt (omega (arith, size-print v "" h)))
      refl

pub parse-print_line : (v : Json) → HasLiterals v → parse (print v "\n") ≡ ok v
unfolding parse skip_ws
parse-print_line v h =
    rw
      (read_value-print v "\n" (2 * size (print v "\n") + 2) h refl
        (omega (arith, size-print v "\n" h)))
      refl
