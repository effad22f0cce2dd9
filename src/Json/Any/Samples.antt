-- ===== src/Json/Any/Samples.antt =====
-- Numbers at the edge of a float64, and a repeated key.
use herdr_tokens.Prelude.{true, false, ◌≡◌, refl}
use herdr_tokens.Prelude.Result.{ok}
use herdr_tokens.Regexp.{matches}
use herdr_tokens.Json.{null, object, field, no_fields}
use herdr_tokens.Json.Parse.{
  read_value, read_body, read_key, skip_ws, start_of, ahead, expect, piece, number_span, parse,
}
use herdr_tokens.Json.Any.{fits_float64, fits, merged, decode_any}

edges :
    (fits_float64 "1.7976931348623158e308" ≡ true)
    × (fits_float64 "-1.7976931348623159e308" ≡ false)
    × (fits_float64 "1e309" ≡ false)
    × (fits_float64 "0.0001e+311" ≡ true)
    × (fits_float64 "1e-400" ≡ true)
unfolding fits_float64
edges = (refl, refl, refl, refl, refl)

last_wins : decode_any "{\"a\": 1, \"a\": null}" ≡ ok (object (field "a" null no_fields))
unfolding decode_any parse read_value read_body read_key skip_ws start_of ahead expect piece
    number_span matches fits merged
last_wins = refl
