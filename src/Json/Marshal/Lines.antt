-- ===== src/Json/Marshal/Lines.antt =====
-- What `json.Marshal` gives, followed by a line break, is one line, and parses back to the value with
-- its keys in order.
use Prim.Native.Char.{Char, code}
use package.text.Mathlib.TextLemmas.{nil-append, cons-append}
use herdr_tokens.Prelude.{
  String, ◌==◌, ◌+++◌, eq_iff, codes, Bool, true, false, Option, none, some, ◌≡◌, refl, ap, sym,
  ◌∙◌, arith, if◌then◌else◌, Bool-cases, inl, inr,
}
use herdr_tokens.Prelude.Result.{ok}
use herdr_tokens.Dict.{lookup}
use herdr_tokens.Order.{before, before_refl}
use herdr_tokens.Json.{
  Json, Items, Fields, null, bool, number, text, array, object, no_items, item, no_fields, field,
  entries,
}
use herdr_tokens.Json.Print.{
  put_escaped, put_body, put_text, put_raw, put_comma, print, print_items, print_fields, escape_of,
  plain, short, long, put_unicode, Escape,
}
use herdr_tokens.Json.Parse.{parse}
use herdr_tokens.Json.RoundTrip.Literals.{HasLiterals, ItemsHaveLiterals, FieldsHaveLiterals}
use herdr_tokens.Json.RoundTrip.Whole.{parse-print_line}
use herdr_tokens.Json.Marshal.{insert_field, ordered, ordered_items, ordered_fields, marshal}

-- A character in front of what is printed stays there.
cons_lem :
    (c : Char) (p t : String) {q : String} → p +++ t ≡ q → String.◌∷◌ c p +++ t ≡ String.◌∷◌ c q
cons_lem c p t h = rw cons-append (ap (String.◌∷◌ c) h)

put_escaped-append :
    (c : Char) (e : Escape) (s t : String) {r : String}
    → s +++ t ≡ r
    → put_escaped c e s +++ t ≡ put_escaped c e r
unfolding put_unicode
put_escaped-append c plain s t h = cons_lem c _ t h
put_escaped-append c (short d) s t h = cons_lem "\\" _ t (cons_lem d _ t h)
put_escaped-append c long s t h =
    cons_lem "\\" _ t
      (cons_lem "u" _ t (cons_lem _ _ t (cons_lem _ _ t (cons_lem _ _ t (cons_lem _ _ t h)))))

put_body-append : (b s t : String) {r : String} → s +++ t ≡ r → put_body b s +++ t ≡ put_body b r
unfolding put_body
put_body-append String.[] s t h = h
put_body-append (String.◌∷◌ c b) s t h =
    put_escaped-append c (escape_of (code c)) (put_body b s) t (put_body-append b s t h)

put_text-append : (b s t : String) {r : String} → s +++ t ≡ r → put_text b s +++ t ≡ put_text b r
put_text-append b s t h =
    cons_lem "\"" _ t (put_body-append b (String.◌∷◌ "\"" s) t (cons_lem "\"" _ t h))

put_raw-append : (n s t : String) {r : String} → s +++ t ≡ r → put_raw n s +++ t ≡ put_raw n r
unfolding put_raw
put_raw-append String.[] s t h = h
put_raw-append (String.◌∷◌ c n) s t h = cons_lem c _ t (put_raw-append n s t h)

put_comma-append :
    (first : Bool) (s t : String) {r : String}
    → s +++ t ≡ r
    → put_comma first s +++ t ≡ put_comma first r
put_comma-append true s t h = h
put_comma-append false s t h = cons_lem "," _ t h

mutual
  unfolding print

  print-append : (v : Json) (s t : String) {r : String} → s +++ t ≡ r → print v s +++ t ≡ print v r
  print-append null s t h = put_raw-append "null" s t h
  print-append (bool true) s t h = put_raw-append "true" s t h
  print-append (bool false) s t h = put_raw-append "false" s t h
  print-append (number n) s t h = put_raw-append n s t h
  print-append (text b) s t h = put_text-append b s t h
  print-append (array vs) s t h = cons_lem "[" _ t (print_items-append vs true s t h)
  print-append (object fs) s t h = cons_lem "{" _ t (print_fields-append fs true s t h)

  print_items-append :
      (vs : Items) (first : Bool) (s t : String) {r : String}
      → s +++ t ≡ r
      → print_items vs first s +++ t ≡ print_items vs first r
  print_items-append no_items first s t h = cons_lem "]" _ t h
  print_items-append (item v vs) first s t h =
      put_comma-append first (print v (print_items vs false s)) t
        (print-append v (print_items vs false s) t (print_items-append vs false s t h))

  print_fields-append :
      (fs : Fields) (first : Bool) (s t : String) {r : String}
      → s +++ t ≡ r
      → print_fields fs first s +++ t ≡ print_fields fs first r
  print_fields-append no_fields first s t h = cons_lem "}" _ t h
  print_fields-append (field k v fs) first s t h =
      let value = print v (print_fields fs false s) in
      put_comma-append first (put_text k (String.◌∷◌ ":" value)) t (
        put_text-append k (String.◌∷◌ ":" value) t (
          cons_lem ":" _ t
            (print-append v (print_fields fs false s) t (print_fields-append fs false s t h))))

insert_field-HasLiterals :
    (k : String) (v : Json) (fs : Fields)
    → HasLiterals v
    → FieldsHaveLiterals fs
    → FieldsHaveLiterals (insert_field k v fs)
unfolding insert_field
insert_field-HasLiterals k v no_fields h hs = (h, tt)
insert_field-HasLiterals k v (field j w fs) h (g, gs) =
    elim (Bool-cases (before (codes k) (codes j))) [
      | inl first ↦ rw first (h, (g, gs))
      | inr later ↦ rw later (g, insert_field-HasLiterals k v fs h gs)
    ]

mutual
  unfolding ordered

  pub ordered-HasLiterals : (v : Json) → HasLiterals v → HasLiterals (ordered v)
  ordered-HasLiterals null h = tt
  ordered-HasLiterals (bool b) h = tt
  ordered-HasLiterals (number n) h = h
  ordered-HasLiterals (text s) h = tt
  ordered-HasLiterals (array vs) h = ordered_items-HasLiterals vs h
  ordered-HasLiterals (object fs) h = ordered_fields-HasLiterals fs h

  ordered_items-HasLiterals :
      (vs : Items) → ItemsHaveLiterals vs → ItemsHaveLiterals (ordered_items vs)
  ordered_items-HasLiterals no_items h = tt
  ordered_items-HasLiterals (item v vs) (h, hs) =
      (ordered-HasLiterals v h, ordered_items-HasLiterals vs hs)

  ordered_fields-HasLiterals :
      (fs : Fields) → FieldsHaveLiterals fs → FieldsHaveLiterals (ordered_fields fs)
  ordered_fields-HasLiterals no_fields h = tt
  ordered_fields-HasLiterals (field k v fs) (h, hs) =
      insert_field-HasLiterals k (ordered v) (ordered_fields fs) (ordered-HasLiterals v h)
        (ordered_fields-HasLiterals fs hs)

lookup-insert_field :
    (k j : String) (v : Json) (fs : Fields)
    → lookup j (entries (insert_field k v fs)) ≡ (if k == j then some v else lookup j (entries fs))
unfolding insert_field lookup
lookup-insert_field k j v no_fields = refl
lookup-insert_field k j v (field i w fs) = elim (Bool-cases (before (codes k) (codes i))) [
  | inl first ↦ rw first refl
  | inr later ↦
      rw later (
        ground (arith, lookup-insert_field k j v fs, eq_iff k j, eq_iff i j, before_refl (codes k)))
]

abbrev pub ordered_value : Option Json → Option Json
ordered_value none = none
ordered_value (some v) = some (ordered v)

-- Ordering its fields keeps the value of each key of an object.
pub lookup-ordered_fields :
    (k : String) (fs : Fields)
    → lookup k (entries (ordered_fields fs)) ≡ ordered_value (lookup k (entries fs))
unfolding ordered lookup
lookup-ordered_fields k no_fields = refl
lookup-ordered_fields k (field j v fs) =
    lookup-insert_field j k (ordered v) (ordered_fields fs)
    ∙ rw (lookup-ordered_fields k fs) (ground arith)

-- A marshalled value and a line break parse to the value with its keys in order.
pub parse-marshal :
    (v : Json) (line : String)
    → HasLiterals v
    → marshal v ≡ ok line
    → parse (line +++ "\n") ≡ ok (ordered v)
unfolding marshal
parse-marshal v line h e =
    let same : print (ordered v) "" ≡ line = cc in
    ap parse (ap (λ s. s +++ "\n") (sym same) ∙ print-append (ordered v) "" "\n" (nil-append "\n"))
    ∙ parse-print_line (ordered v) (ordered-HasLiterals v h)
