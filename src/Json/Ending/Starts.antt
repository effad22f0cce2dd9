-- ===== src/Json/Ending/Starts.antt =====
-- What a value begins with leaves less than it was given.
use Prim.Native.Char.{code}
use herdr_tokens.Prelude.{
  ℕ, ◌+◌, ◌<◌, ◌≤◌, String, Bool, true, false, Option, none, some, ◌≡◌, arith, nat_eq, Bool-cases,
  inl, inr, codes,
}
use herdr_tokens.Prelude.Result.{ok, err}
use herdr_tokens.Regexp.{matches}
use herdr_tokens.Json.{Json}
use herdr_tokens.Json.Parse.{
  syntax, out_of_fuel, Read, size, skip_ws, read_body, number_span, number_if, in_number, re_number,
  after_word, word_if, Start, nothing_there, object_at, array_at, text_at, word_at, number_at,
  start_of, Ahead, neither, done, element_at, ahead, expect, key_then, key_if, read_key, text_read,
}
use herdr_tokens.Json.Ending.Texts.{Ends, read_body-Ends}

pub size-skip_ws : (s : String) → size (skip_ws s) ≤ size s
unfolding skip_ws
size-skip_ws String.[] = omega arith
size-skip_ws (String.◌∷◌ c s) = ground (arith, size-skip_ws s)

pub size-number_span : (s : String) → size (number_span s).0 + size (number_span s).1 ≡ size s
unfolding number_span
size-number_span String.[] = omega arith
size-number_span (String.◌∷◌ c s) = elim (Bool-cases (in_number (code c))) [
  | inl e ↦ rw e (omega (arith, size-number_span s))
  | inr e ↦ rw e (omega arith)
]

abbrev pub WordWithin : ℕ → Option String → Type 0
WordWithin n none = Unit
WordWithin n (some rest) = size rest < n

pub size-after_word : (w s : String) (n : ℕ) → size s < n → WordWithin n (after_word w s)
size-after_word String.[] s n lt = lt
size-after_word (String.◌∷◌ c w) String.[] n lt = tt
size-after_word (String.◌∷◌ c w) (String.◌∷◌ d s) n lt =
    let rest = size-after_word w s n (omega arith) in
    elim (Bool-cases (nat_eq (code c) (code d))) [ inl e ↦ rw e rest | inr e ↦ rw e tt ]

pub number_if-Ends :
    (token rest : String) (n : ℕ) → size token + size rest ≤ n → Ends (number_if (token, rest)) n
unfolding matches
number_if-Ends String.[] rest n le = tt
number_if-Ends (String.◌∷◌ c token) rest n le =
    elim (Bool-cases (matches re_number (codes (String.◌∷◌ c token)))) [
      | inl e ↦ rw e (omega arith)
      | inr e ↦ rw e tt
    ]

abbrev pub StartWithin : ℕ → Start → Type 0
StartWithin n nothing_there = Unit
StartWithin n (object_at rest) = size rest < n
StartWithin n (array_at rest) = size rest < n
StartWithin n (text_at rest) = size rest < n
StartWithin n (word_at v found) = WordWithin n found
StartWithin n (number_at span) = size span.0 + size span.1 ≤ n

pub start_of-Within : (s : String) (n : ℕ) → size s ≤ n → StartWithin n (start_of s)
unfolding start_of
start_of-Within String.[] n le = tt
start_of-Within (String.◌∷◌ c s) n le = ground (
  arith,
  size-number_span (String.◌∷◌ c s),
  size-after_word "rue" s n (omega arith),
  size-after_word "alse" s n (omega arith),
  size-after_word "ull" s n (omega arith),
)

abbrev pub AheadWithin : ℕ → Ahead → Type 0
AheadWithin n neither = Unit
AheadWithin n (done rest) = size rest < n
AheadWithin n (element_at rest) = size rest ≤ n

pub ahead-Within :
    (bracket : ℕ) (first : Bool) (s : String) (n : ℕ)
    → size s ≤ n
    → AheadWithin n (ahead bracket first s)
unfolding ahead
ahead-Within bracket first String.[] n le = tt
ahead-Within bracket true (String.◌∷◌ c s) n le = ground arith
ahead-Within bracket false (String.◌∷◌ c s) n le = ground arith

pub size-expect : (m : ℕ) (s : String) (n : ℕ) → size s ≤ n → WordWithin n (expect m s)
unfolding expect
size-expect m String.[] n le = tt
size-expect m (String.◌∷◌ c s) n le = ground arith

pub key_then-Ends : (r : Read String) (n : ℕ) → Ends r n → Ends (key_then r) n
key_then-Ends (err syntax) n h = tt
key_then-Ends (err out_of_fuel) n h = h
key_then-Ends (ok (k, rest)) n h =
    elim (expect b':' (skip_ws rest))
        as (λ o. WordWithin n o → Ends (elim o [ none ↦ err syntax | some s ↦ ok (k, s) ]) n) [
          | none ↦ λ w. tt
          | some s ↦ λ w. w
        ]
      (size-expect b':' (skip_ws rest) n (omega (arith, size-skip_ws rest)))

pub key_if-Ends : (f : ℕ) (o : Option String) (n : ℕ) → WordWithin n o → n ≤ f → Ends (key_if f o) n
key_if-Ends f none n h le = tt
key_if-Ends f (some s) n h le =
    key_then-Ends (read_body f s) n (read_body-Ends f s n (omega arith) (omega arith))

pub read_key-Ends : (f : ℕ) (s : String) → size s ≤ f → Ends (read_key f s) (size s)
unfolding read_key
read_key-Ends f s le =
    key_if-Ends f (expect b'"' (skip_ws s)) (size s)
      (size-expect b'"' (skip_ws s) (size s) (size-skip_ws s)) le

pub text_read-Ends : (r : Read String) (n : ℕ) → Ends r n → Ends (text_read r) n
text_read-Ends (err syntax) n h = tt
text_read-Ends (err out_of_fuel) n h = h
text_read-Ends (ok (s, rest)) n h = h

pub word_if-Ends : (v : Json) (o : Option String) (n : ℕ) → WordWithin n o → Ends (word_if v o) n
word_if-Ends v none n h = tt
word_if-Ends v (some rest) n h = h
