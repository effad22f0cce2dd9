-- ===== src/Json/RoundTrip/Starts.antt =====
-- How printed values, elements and fields begin, and where a printed number ends.
use Prim.Native.Char.{Char, code}
use herdr_tokens.Prelude.{
  ℕ, suc, ◌<◌, String, codes, Bool, true, false, ◌≡◌, refl, ap, ◌∙◌, arith, All,
}
use herdr_tokens.Prelude.Result.{ok}
use herdr_tokens.Regexp.{matches}
use herdr_tokens.Json.{
  Json, Items, Fields, null, bool, number, text, array, object, no_items, item, no_fields, field,
}
use herdr_tokens.Json.Print.{put_text, put_raw, put_comma, print, print_items, print_fields}
use herdr_tokens.Json.Parse.{
  size, skip_ws, start_of, start_at, number_at, in_number, number_span, ahead, element_at, expect,
  read_key, key_then, read_value, is_ws,
}
use herdr_tokens.Json.RoundTrip.Strings.{read_body-put_body}
use herdr_tokens.Json.RoundTrip.Literals.{IsLiteral, HasLiterals, Stops}

pub number_span-Stops : (rest : String) → Stops rest → number_span rest ≡ (String.[], rest)
unfolding number_span
number_span-Stops String.[] h = refl
number_span-Stops (String.◌∷◌ c s) h = rw h refl

pub number_span-put_raw :
    (n rest : String)
    → All (λ c. in_number c ≡ true) (codes n)
    → Stops rest
    → number_span (put_raw n rest) ≡ (n, rest)
unfolding number_span put_raw
number_span-put_raw String.[] rest h stop = unfold number_span in number_span-Stops rest stop
number_span-put_raw (String.◌∷◌ c n) rest (h, hs) stop =
    rw (number_span-put_raw n rest hs stop) (rw h refl)

pub start_at_number :
    (c : Char) (s : String)
    → in_number (code c) ≡ true
    → start_at c s ≡ number_at (number_span (String.◌∷◌ c s))
start_at_number c s h = ground arith

pub in_number_is_no_ws : (n : ℕ) → in_number n ≡ true → is_ws n ≡ false
in_number_is_no_ws n h = ground arith

pub skip_ws_lem :
    (c : Char) (s : String) → is_ws (code c) ≡ false → skip_ws (String.◌∷◌ c s) ≡ String.◌∷◌ c s
unfolding skip_ws
skip_ws_lem c s h = rw h refl

pub no_empty_literal : IsLiteral "" → ⊥
unfolding matches
no_empty_literal lit = let e : false ≡ true = lit.grammar in cc

pub start_of-number :
    (n rest : String)
    → IsLiteral n
    → Stops rest
    → start_of (skip_ws (put_raw n rest)) ≡ number_at (n, rest)
unfolding start_of put_raw
start_of-number String.[] rest lit stop = absurd (no_empty_literal lit)
start_of-number (String.◌∷◌ c n) rest lit stop =
    let (h, hs) = lit.spelled in
    rw (skip_ws_lem c (put_raw n rest) (in_number_is_no_ws (code c) h)) (
      start_at_number c (put_raw n rest) h
      ∙ ap number_at (number_span-put_raw (String.◌∷◌ c n) rest (h, hs) stop))

pub read_number :
    (n rest : String) (f : ℕ)
    → IsLiteral n
    → Stops rest
    → read_value (suc f) (put_raw n rest) ≡ ok (number n, rest)
unfolding read_value
read_number n rest f lit stop =
    rw (start_of-number n rest lit stop, read_value) (rw lit.grammar refl)

-- A printed value begins with no space and no closing bracket.
pub begins :
    (v : Json) (rest : String)
    → HasLiterals v
    → (skip_ws (print v rest) ≡ print v rest)
      × (ahead b']' true (print v rest) ≡ element_at (print v rest))
unfolding skip_ws ahead print
begins null rest h = (refl, refl)
begins (bool true) rest h = (refl, refl)
begins (bool false) rest h = (refl, refl)
begins (number String.[]) rest lit = absurd (no_empty_literal lit)
begins (number (String.◌∷◌ c n)) rest lit =
    let (h, hs) = lit.spelled in (ground arith, ground arith)
begins (text s) rest h = (refl, refl)
begins (array vs) rest h = (refl, refl)
begins (object fs) rest h = (refl, refl)

pub items-Stops : (vs : Items) (rest : String) → Stops (print_items vs false rest)
unfolding print
items-Stops no_items rest = refl
items-Stops (item v vs) rest = refl

pub fields-Stops : (fs : Fields) (rest : String) → Stops (print_fields fs false rest)
unfolding print
fields-Stops no_fields rest = refl
fields-Stops (field k v fs) rest = refl

pub ahead_item :
    (first : Bool) (v : Json) (rest : String)
    → HasLiterals v
    → ahead b']' first (skip_ws (put_comma first (print v rest))) ≡ element_at (print v rest)
unfolding ahead skip_ws
ahead_item true v rest h = let (a, b) = begins v rest h in rw a b
ahead_item false v rest h = refl

pub ahead_field :
    (first : Bool) (s : String)
    → ahead b'}' first (skip_ws (put_comma first (String.◌∷◌ "\"" s)))
      ≡ element_at (String.◌∷◌ "\"" s)
unfolding ahead skip_ws
ahead_field true s = refl
ahead_field false s = refl

pub read_key-put_text :
    (k s : String) (f : ℕ) → size k < f → read_key f (put_text k (String.◌∷◌ ":" s)) ≡ ok (k, s)
unfolding read_key skip_ws expect
read_key-put_text k s f h = rw (read_body-put_body k (String.◌∷◌ ":" s) f h, key_then) refl
