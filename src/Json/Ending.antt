-- ===== src/Json/Ending.antt =====
-- `parse` comes to an end: each call leaves less of the input than it was given, and the fuel lasts.
mod Texts
mod Starts
use Prim.Native.Char.{Char, code}
use herdr_tokens.Prelude.{
  ℕ, zero, suc, ◌+◌, ◌*◌, ◌<◌, ◌≤◌, String, Bool, true, false, Option, none, some, ◌≡◌, ◌≢◌, arith,
  nat_eq, Bool-cases, inl, inr, codes,
}
use herdr_tokens.Prelude.Result.{ok, err, ◌>>=◌}
use herdr_tokens.Regexp.{matches}
use herdr_tokens.Json.{Json, object, array, item, field, no_items, no_fields}
use herdr_tokens.Json.Parse.{
  syntax, out_of_fuel, Read, size, skip_ws, hex4, low_half, Piece, bad, closing, one, paired,
  numbered, letter_escape, lettered, escaped, piece, cons_text, read_body, number_span, number_if,
  in_number, re_number, after_word, word_if, Start, nothing_there, object_at, array_at, text_at,
  word_at, number_at, start_of, Ahead, neither, done, element_at, ahead, expect, key_then, key_if,
  read_key, text_read, read_value, read_items, read_fields, finished, parse, with_rest, four_digits,
  hex_value,
}
use Texts.{
  Ends, then_Ends, OptionWithin, hex4-Within, low_half-Within, PieceWithin, paired-Within,
  numbered-Within, lettered-Within, escaped-Within, piece-Within, cons_text-Ends, read_body-Ends,
}
use Starts.{
  size-skip_ws, size-number_span, WordWithin, size-after_word, number_if-Ends, StartWithin,
  start_of-Within, AheadWithin, ahead-Within, size-expect, key_then-Ends, key_if-Ends,
  read_key-Ends, text_read-Ends, word_if-Ends,
}

mutual
  unfolding read_value

  read_value-Ends : (f : ℕ) (s : String) → 2 * size s + 2 ≤ f → Ends (read_value f s) (size s)
  read_value-Ends zero s le = absurd (omega arith)
  read_value-Ends (suc f) s le =
      (elim (start_of (skip_ws s))
          as (λ st.
            StartWithin (size s) st
            → Ends
                (elim st [
                  | nothing_there ↦ err syntax
                  | object_at rest ↦
                      read_fields f true rest >>= λ (fs, after). ok (object fs, after)
                  | array_at rest ↦ read_items f true rest >>= λ (vs, after). ok (array vs, after)
                  | text_at rest ↦ text_read (read_body f rest)
                  | word_at v found ↦ word_if v found
                  | number_at span ↦ number_if span
                ])
                (size s)) [
                  | nothing_there ↦ λ w. tt
                  | object_at rest ↦ λ w.
                      then_Ends (read_fields f true rest) _ (suc (size rest)) (size s)
                        (read_fields-Ends f true rest (omega arith)) (λ fs after lt. omega arith)
                  | array_at rest ↦ λ w.
                      then_Ends (read_items f true rest) _ (suc (size rest)) (size s)
                        (read_items-Ends f true rest (omega arith)) (λ vs after lt. omega arith)
                  | text_at rest ↦ λ w.
                      text_read-Ends (read_body f rest) (size s)
                        (read_body-Ends f rest (size s) (omega arith) (omega arith))
                  | word_at v found ↦ λ w. word_if-Ends v found (size s) w
                  | number_at span ↦ λ w. number_if-Ends span.0 span.1 (size s) w
                ])
        (start_of-Within (skip_ws s) (size s) (size-skip_ws s))

  read_items-Ends :
      (f : ℕ) (first : Bool) (s : String)
      → 2 * size s + 3 ≤ f
      → Ends (read_items f first s) (suc (size s))
  read_items-Ends zero first s le = absurd (omega arith)
  read_items-Ends (suc f) first s le =
      (elim (ahead b']' first (skip_ws s))
          as (λ o.
            AheadWithin (size s) o
            → Ends
                (elim o [
                  | neither ↦ err syntax
                  | done rest ↦ ok (no_items, rest)
                  | element_at rest ↦ read_value f rest >>= λ (v, after).
                      read_items f false after >>= λ (vs, end). ok (item v vs, end)
                ])
                (suc (size s))) [
                  | neither ↦ λ w. tt
                  | done rest ↦ λ w. omega arith
                  | element_at rest ↦ λ w.
                      then_Ends (read_value f rest) _ (size rest) (suc (size s))
                        (read_value-Ends f rest (omega arith))
                        (λ v after lt.
                          then_Ends (read_items f false after) _ (suc (size after)) (suc (size s))
                            (read_items-Ends f false after (omega arith)) (λ vs end l. omega arith))
                ])
        (ahead-Within b']' first (skip_ws s) (size s) (size-skip_ws s))

  read_fields-Ends :
      (f : ℕ) (first : Bool) (s : String)
      → 2 * size s + 3 ≤ f
      → Ends (read_fields f first s) (suc (size s))
  read_fields-Ends zero first s le = absurd (omega arith)
  read_fields-Ends (suc f) first s le =
      (elim (ahead b'}' first (skip_ws s))
          as (λ o.
            AheadWithin (size s) o
            → Ends
                (elim o [
                  | neither ↦ err syntax
                  | done rest ↦ ok (no_fields, rest)
                  | element_at rest ↦ read_key f rest >>= λ (k, value_at).
                      read_value f value_at >>= λ (v, after).
                      read_fields f false after >>= λ (fs, end). ok (field k v fs, end)
                ])
                (suc (size s))) [
                  | neither ↦ λ w. tt
                  | done rest ↦ λ w. omega arith
                  | element_at rest ↦ λ w.
                      then_Ends (read_key f rest) _ (size rest) (suc (size s))
                        (read_key-Ends f rest (omega arith))
                        (λ k value_at shorter.
                          then_Ends (read_value f value_at) _ (size value_at) (suc (size s))
                            (read_value-Ends f value_at (omega arith))
                            (λ v after lt.
                              then_Ends (read_fields f false after) _ (suc (size after))
                                (suc (size s)) (read_fields-Ends f false after (omega arith))
                                (λ fs end l. omega arith)))
                ])
        (ahead-Within b'}' first (skip_ws s) (size s) (size-skip_ws s))

finished_ends : (v : Json) (s : String) → finished v s ≢ err out_of_fuel
finished_ends v String.[] e = cc
finished_ends v (String.◌∷◌ c s) e = cc

ended :
    (r : Read Json) (n : ℕ)
    → Ends r n
    → (r >>= λ (v, rest). finished v (skip_ws rest)) ≢ err out_of_fuel
ended (err syntax) n h e = cc
ended (err out_of_fuel) n h e = h
ended (ok (v, rest)) n h e = finished_ends v (skip_ws rest) e

-- Parsing ends on every text, with a value or with a syntax error.
pub parse_ends : (s : String) → parse s ≢ err out_of_fuel
unfolding parse
parse_ends s =
    ended (read_value (2 * size s + 2) s) (size s)
      (read_value-Ends (2 * size s + 2) s (omega arith))
