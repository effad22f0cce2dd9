-- ===== src/Json/Parse/Starts.antt =====
-- How a value begins: a bracket, a quote, a word, or a number with its grammar.
use Prim.Native.Char.{Char, code}
use herdr_tokens.Prelude.{
  ℕ, String, Bool, true, false, ◌&&◌, ◌||◌, Option, none, some, [], ◌∷◌, codes, leb, nat_eq, any,
  if◌then◌else◌,
}
use herdr_tokens.Prelude.Result.{ok, err}
use herdr_tokens.Regexp.{Regex, nothing, range, seq, alt, star, literal, plus, matches}
use herdr_tokens.Json.{Json, null, bool, number}
use herdr_tokens.Json.Parse.Texts.{syntax, Read}

abbrev pub in_number : ℕ → Bool
in_number n =
    (leb b'0' n && leb n b'9') || any (λ m. nat_eq m n) (b'-' ∷ b'+' ∷ b'.' ∷ b'e' ∷ b'E' ∷ [])

-- The longest run of characters that occur in numbers.
unfoldable pub number_span : String → String × String
number_span String.[] = (String.[], String.[])
number_span (String.◌∷◌ c s) =
    let (token, rest) = number_span s in
    if in_number (code c) then (String.◌∷◌ c token, rest) else (String.[], String.◌∷◌ c s)

abbrev maybe : Regex → Regex
maybe r = alt nothing r

-- `-?(0|[1-9]\d*)(\.\d+)?([eE][+-]?\d+)?`
abbrev pub re_number : Regex
re_number = seq (maybe (literal "-")) (
    seq (alt (literal "0") (seq (range b'1' b'9') (star (range b'0' b'9')))) (
      seq (maybe (seq (literal ".") (plus (range b'0' b'9')))) (
        maybe (
          seq (alt (literal "e") (literal "E"))
            (seq (maybe (alt (literal "+") (literal "-"))) (plus (range b'0' b'9')))))))

abbrev pub number_if : String × String → Read Json
number_if (token, rest) =
    if matches re_number (codes token) then ok (number token, rest) else err syntax

-- The rest after a given word.
abbrev pub after_word : String → String → Option String
after_word String.[] s = some s
after_word (String.◌∷◌ c w) String.[] = none
after_word (String.◌∷◌ c w) (String.◌∷◌ d s) =
    let rest = after_word w s in if nat_eq (code c) (code d) then rest else none

abbrev pub word_if : Json → Option String → Read Json
word_if v none = err syntax
word_if v (some rest) = ok (v, rest)

-- How a value begins.
pub data Start : Type 0 where
  nothing_there : Start
  object_at array_at text_at : String → Start
  word_at : Json → Option String → Start
  number_at : String × String → Start

abbrev pub start_at : Char → String → Start
start_at c s =
    if nat_eq (code c) b'{'
    then object_at s
    else if nat_eq (code c) b'['
    then array_at s
    else if nat_eq (code c) b'"'
    then text_at s
    else if nat_eq (code c) b't'
    then word_at (bool true) (after_word "rue" s)
    else if nat_eq (code c) b'f'
    then word_at (bool false) (after_word "alse" s)
    else if nat_eq (code c) b'n'
    then word_at null (after_word "ull" s)
    else number_at (number_span (String.◌∷◌ c s))

unfoldable pub start_of : String → Start
unfolding number_span
start_of String.[] = nothing_there
start_of (String.◌∷◌ c s) = start_at c s
