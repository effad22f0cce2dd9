-- ===== src/Json/RoundTrip/Values.antt =====
-- A printed value is read off the front of any text that cannot continue a number.
use herdr_tokens.Prelude.{ℕ, zero, suc, ◌≤◌, String, Bool, true, false, ◌≡◌, refl, ◌∙◌, arith}
use herdr_tokens.Prelude.Result.{ok, ◌>>=◌}
use herdr_tokens.Json.{
  Json, Items, Fields, null, bool, number, text, array, object, no_items, item, no_fields, field,
}
use herdr_tokens.Json.Print.{put_body, print, print_items, print_fields}
use herdr_tokens.Json.Parse.{
  skip_ws, start_of, ahead, read_body, text_read, read_value, read_items, read_fields,
}
use herdr_tokens.Json.RoundTrip.Strings.{read_body-put_body}
use herdr_tokens.Json.RoundTrip.Literals.{
  HasLiterals, ItemsHaveLiterals, FieldsHaveLiterals, Stops, need, need_items, need_fields, no_need,
  no_need_items, no_need_fields,
}
use herdr_tokens.Json.RoundTrip.Starts.{
  read_number, items-Stops, fields-Stops, ahead_item, ahead_field, read_key-put_text,
}

-- The first step of reading a value, by what it begins with.
read_null : (rest : String) (f : ℕ) → read_value (suc f) (print null rest) ≡ ok (null, rest)
unfolding read_value print skip_ws start_of
read_null rest f = refl

read_bool :
    (b : Bool) (rest : String) (f : ℕ)
    → read_value (suc f) (print (bool b) rest) ≡ ok (bool b, rest)
unfolding read_value print skip_ws start_of
read_bool true rest f = refl
read_bool false rest f = refl

read_text :
    (s : String) (f : ℕ) → read_value (suc f) (String.◌∷◌ "\"" s) ≡ text_read (read_body f s)
unfolding read_value skip_ws start_of
read_text s f = refl

read_array :
    (s : String) (f : ℕ)
    → read_value (suc f) (String.◌∷◌ "[" s)
      ≡ (read_items f true s >>= λ (vs, after). ok (array vs, after))
unfolding read_value skip_ws start_of
read_array s f = refl

read_object :
    (s : String) (f : ℕ)
    → read_value (suc f) (String.◌∷◌ "{" s)
      ≡ (read_fields f true s >>= λ (fs, after). ok (object fs, after))
unfolding read_value skip_ws start_of
read_object s f = refl

read_no_items :
    (first : Bool) (rest : String) (f : ℕ)
    → read_items (suc f) first (String.◌∷◌ "]" rest) ≡ ok (no_items, rest)
unfolding read_value skip_ws ahead
read_no_items first rest f = refl

read_no_fields :
    (first : Bool) (rest : String) (f : ℕ)
    → read_fields (suc f) first (String.◌∷◌ "}" rest) ≡ ok (no_fields, rest)
unfolding read_value skip_ws ahead
read_no_fields first rest f = refl

mutual
  unfolding read_value print

  pub read_value-print :
      (v : Json) (rest : String) (f : ℕ)
      → HasLiterals v
      → Stops rest
      → need v ≤ f
      → read_value f (print v rest) ≡ ok (v, rest)
  read_value-print v rest zero h stop le = absurd (no_need v le)
  read_value-print null rest (suc f) h stop le = read_null rest f
  read_value-print (bool b) rest (suc f) h stop le = read_bool b rest f
  read_value-print (number n) rest (suc f) h stop le = read_number n rest f h stop
  read_value-print (text s) rest (suc f) h stop le =
      read_text (put_body s (String.◌∷◌ "\"" rest)) f
      ∙ rw (read_body-put_body s rest f (omega arith), text_read) refl
  read_value-print (array vs) rest (suc f) h stop le =
      read_array (print_items vs true rest) f
      ∙ rw (read_items-print vs true rest f h (omega arith)) refl
  read_value-print (object fs) rest (suc f) h stop le =
      read_object (print_fields fs true rest) f
      ∙ rw (read_fields-print fs true rest f h (omega arith)) refl

  read_items-print :
      (vs : Items) (first : Bool) (rest : String) (f : ℕ)
      → ItemsHaveLiterals vs
      → need_items vs ≤ f
      → read_items f first (print_items vs first rest) ≡ ok (vs, rest)
  read_items-print vs first rest zero h le = absurd (no_need_items vs le)
  read_items-print no_items first rest (suc f) h le = read_no_items first rest f
  read_items-print (item v vs) first rest (suc f) (h, hs) le =
      rw (ahead_item first v (print_items vs false rest) h, read_items)
        (rw (read_value-print v (print_items vs false rest) f h (items-Stops vs rest) (omega arith))
          (rw (read_items-print vs false rest f hs (omega arith)) refl))

  read_fields-print :
      (fs : Fields) (first : Bool) (rest : String) (f : ℕ)
      → FieldsHaveLiterals fs
      → need_fields fs ≤ f
      → read_fields f first (print_fields fs first rest) ≡ ok (fs, rest)
  read_fields-print fs first rest zero h le = absurd (no_need_fields fs le)
  read_fields-print no_fields first rest (suc f) h le = read_no_fields first rest f
  read_fields-print (field k v fs) first rest (suc f) (h, hs) le =
      rw
        (
          ahead_field first (
              put_body k (String.◌∷◌ "\"" (String.◌∷◌ ":" (print v (print_fields fs false rest))))),
          read_fields,
        )
        (rw (read_key-put_text k (print v (print_fields fs false rest)) f (omega arith)) (
          rw
            (read_value-print v (print_fields fs false rest) f h (fields-Stops fs rest)
              (omega arith))
            (rw (read_fields-print fs false rest f hs (omega arith)) refl)))
