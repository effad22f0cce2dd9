-- ===== src/Json/Marshal/OneLine.antt =====
-- What `json.Marshal` gives has no line break in it.
use Prim.Native.Char.{Char, code}
use herdr_tokens.Prelude.{
  ℕ, zero, suc, String, codes, Bool, true, false, ◌≡◌, refl, arith, All, nat_eq, List, [], ◌∷◌,
  subst,
}
use herdr_tokens.Prelude.Result.{ok}
use herdr_tokens.Json.{
  Json, Items, Fields, null, bool, number, text, array, object, no_items, item, no_fields, field,
}
use herdr_tokens.Json.Print.{
  hex_char, pick_char, put_escaped, put_body, put_text, put_raw, put_comma, print, print_items,
  print_fields, escape_of, put_unicode, Escape, plain, short, long,
}
use herdr_tokens.Json.Parse.{in_number}
use herdr_tokens.Json.RoundTrip.Literals.{HasLiterals, ItemsHaveLiterals, FieldsHaveLiterals}
use herdr_tokens.Json.Marshal.{ordered, marshal}
use herdr_tokens.Json.Marshal.Lines.{ordered-HasLiterals}

-- No character of the text is a line break.
abbrev pub IsOneLine : String → Type 0
IsOneLine s = All (λ c. nat_eq c b'\n' ≡ false) (codes s)

pick_char_lem :
    (cs : List Char) (n : ℕ)
    → All (λ c. nat_eq (code c) b'\n' ≡ false) cs
    → nat_eq (code (pick_char cs n)) b'\n' ≡ false
pick_char_lem [] n h = refl
pick_char_lem (c ∷ cs) zero (h, hs) = h
pick_char_lem (c ∷ cs) (suc n) (h, hs) = pick_char_lem cs n hs

hex_char_lem : (n : ℕ) → nat_eq (code (hex_char n)) b'\n' ≡ false
unfolding hex_char
hex_char_lem n =
    pick_char_lem
      ("0" ∷ "1" ∷ "2" ∷ "3" ∷ "4" ∷ "5" ∷ "6" ∷ "7" ∷ "8" ∷ "9" ∷ "a" ∷ "b" ∷ "c" ∷ "d" ∷ "e" ∷ "f"
        ∷ [])
      n
      (
        refl,
        (
          refl,
          (
            refl,
            (
              refl,
              (
                refl,
                (
                  refl,
                  (
                    refl,
                    (refl, (refl, (refl, (refl, (refl, (refl, (refl, (refl, (refl, tt))))))))),
                  ),
                ),
              ),
            ),
          ),
        ),
      )

-- The escape stands for no line break as it is.
abbrev IsBroken : Char → Escape → Type 0
IsBroken c plain = nat_eq (code c) b'\n' ≡ false
IsBroken c (short d) = nat_eq (code d) b'\n' ≡ false
IsBroken c long = Unit

escape_of-IsBroken : (c : Char) → IsBroken c (escape_of (code c))
unfolding escape_of
escape_of-IsBroken c = ground arith

put_escaped_lem :
    (c : Char) (e : Escape) (s : String)
    → IsBroken c e
    → IsOneLine s
    → IsOneLine (put_escaped c e s)
unfolding put_unicode
put_escaped_lem c plain s p h = (p, h)
put_escaped_lem c (short d) s p h = (refl, (p, h))
put_escaped_lem c long s p h =
    (refl, (refl, (hex_char_lem _, (hex_char_lem _, (hex_char_lem _, (hex_char_lem _, h))))))

put_body_lem : (b s : String) → IsOneLine s → IsOneLine (put_body b s)
unfolding put_body
put_body_lem String.[] s h = h
put_body_lem (String.◌∷◌ c b) s h =
    put_escaped_lem c (escape_of (code c)) (put_body b s) (escape_of-IsBroken c)
      (put_body_lem b s h)

put_text_lem : (b s : String) → IsOneLine s → IsOneLine (put_text b s)
put_text_lem b s h = (refl, put_body_lem b (String.◌∷◌ "\"" s) (refl, h))

put_raw_lem : (n s : String) → IsOneLine n → IsOneLine s → IsOneLine (put_raw n s)
unfolding put_raw
put_raw_lem String.[] s g h = h
put_raw_lem (String.◌∷◌ c n) s (g, gs) h = (g, put_raw_lem n s gs h)

literal_lem : (n : String) → All (λ c. in_number c ≡ true) (codes n) → IsOneLine n
literal_lem String.[] h = tt
literal_lem (String.◌∷◌ c n) (h, hs) = (ground arith, literal_lem n hs)

put_comma_lem : (first : Bool) (s : String) → IsOneLine s → IsOneLine (put_comma first s)
put_comma_lem true s h = h
put_comma_lem false s h = (refl, h)

mutual
  unfolding print put_raw

  print_lem : (v : Json) (s : String) → HasLiterals v → IsOneLine s → IsOneLine (print v s)
  print_lem null s l h = (refl, (refl, (refl, (refl, h))))
  print_lem (bool true) s l h = (refl, (refl, (refl, (refl, h))))
  print_lem (bool false) s l h = (refl, (refl, (refl, (refl, (refl, h)))))
  print_lem (number n) s l h = put_raw_lem n s (literal_lem n l.spelled) h
  print_lem (text b) s l h = put_text_lem b s h
  print_lem (array vs) s l h = (refl, print_items_lem vs true s l h)
  print_lem (object fs) s l h = (refl, print_fields_lem fs true s l h)

  print_items_lem :
      (vs : Items) (first : Bool) (s : String)
      → ItemsHaveLiterals vs
      → IsOneLine s
      → IsOneLine (print_items vs first s)
  print_items_lem no_items first s l h = (refl, h)
  print_items_lem (item v vs) first s (l, ls) h =
      put_comma_lem first (print v (print_items vs false s))
        (print_lem v (print_items vs false s) l (print_items_lem vs false s ls h))

  print_fields_lem :
      (fs : Fields) (first : Bool) (s : String)
      → FieldsHaveLiterals fs
      → IsOneLine s
      → IsOneLine (print_fields fs first s)
  print_fields_lem no_fields first s l h = (refl, h)
  print_fields_lem (field k v fs) first s (l, ls) h =
      let rest = print v (print_fields fs false s) in
      put_comma_lem first (put_text k (String.◌∷◌ ":" rest)) (
        put_text_lem k (String.◌∷◌ ":" rest)
          (refl, print_lem v (print_fields fs false s) l (print_fields_lem fs false s ls h)))

pub marshal-IsOneLine :
    (v : Json) (line : String) → HasLiterals v → marshal v ≡ ok line → IsOneLine line
unfolding marshal
marshal-IsOneLine v line h e =
    let same : print (ordered v) "" ≡ line = cc in
    subst IsOneLine same (print_lem (ordered v) "" (ordered-HasLiterals v h) tt)
