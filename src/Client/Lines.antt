-- ===== src/Client/Lines.antt =====
-- The line of a request: one line, and what its reader finds in it.
use herdr_tokens.Prelude.{
  ◌+◌, String, ◌+++◌, none, some, [], ◌∷◌, ◌≡◌, ◌≢◌, subst, refl, ap, ◌∙◌, Bool-cases, inl, inr,
}
use herdr_tokens.Prelude.Int.{ℤ, pos, negsuc, ltb_ℤ}
use herdr_tokens.Prelude.Result.{Result, ok, err, OkThen}
use herdr_tokens.Order.{before}
use herdr_tokens.Json.{Json, object}
use herdr_tokens.Json.Parse.{ParseError, syntax, out_of_fuel, parse}
use herdr_tokens.Json.Ending.{parse_ends}
use herdr_tokens.Wire.Decode.{malformed, is_field, into_error}
use herdr_tokens.Wire.Decode.Errors.{
  OnlyMismatches, then_OnlyMismatches, into_struct-OnlyMismatches, into_error-OnlyMismatches,
}
use herdr_tokens.Json.RoundTrip.Literals.{IsLiteral, HasLiterals, FieldsHaveLiterals}
use herdr_tokens.Json.RoundTrip.Numbers.{itoa-IsLiteral, negative-IsLiteral}
use herdr_tokens.Json.Marshal.{insert_field, ordered, marshal}
use herdr_tokens.Json.Marshal.Lines.{parse-marshal}
use herdr_tokens.Json.Marshal.OneLine.{IsOneLine, marshal-IsOneLine}
use herdr_tokens.Derive.{Tokens}
use herdr_tokens.Client.{
  Response, response_field, response_of, decode_response, Client, request, token_fields, format_int,
  ttl_field, report_params,
}

ordered-request :
    (c : Client) (method : String) (params : Json)
    → ordered (request c method params) ≡ request c method (ordered params)
unfolding ordered insert_field before request
ordered-request c method params = refl

request-HasLiterals :
    (c : Client) (method : String) (params : Json)
    → HasLiterals params
    → HasLiterals (request c method params)
unfolding request
request-HasLiterals c method params h = (tt, (tt, (h, tt)))

-- Every request whose numbers are numbers is sent as one line, without a line break inside, and a
-- reader of that line finds the id, the method and the params, with the keys of each object in order.
pub request_line :
    (c : Client) (method : String) (params : Json)
    → HasLiterals params
    → OkThen
        (marshal (request c method params))
        (λ line. IsOneLine line × (parse (line +++ "\n") ≡ ok (request c method (ordered params))))
unfolding marshal
request_line c method params h =
    let literals = request-HasLiterals c method params h in
    (
      _,
      (
        refl,
        (
          marshal-IsOneLine (request c method params) _ literals refl,
          parse-marshal (request c method params) _ literals refl
              ∙ ap ok (ordered-request c method params),
        ),
      ),
    )

format_int-IsLiteral : (n : ℤ) → IsLiteral (format_int n)
unfolding format_int
format_int-IsLiteral (pos n) = itoa-IsLiteral n
format_int-IsLiteral (negsuc n) = negative-IsLiteral (n + 1)

ttl_field-HaveLiterals : (ttl : ℤ) → FieldsHaveLiterals (ttl_field ttl)
ttl_field-HaveLiterals ttl = elim (Bool-cases (ltb_ℤ (pos 0) ttl)) [
  | inl positive ↦ rw positive (format_int-IsLiteral ttl, tt)
  | inr none_sent ↦ rw none_sent tt
]

token_fields-HaveLiterals : (toks : Tokens) → FieldsHaveLiterals (token_fields toks)
token_fields-HaveLiterals [] = tt
token_fields-HaveLiterals ((k, none) ∷ toks) = (tt, token_fields-HaveLiterals toks)
token_fields-HaveLiterals ((k, some s) ∷ toks) = (tt, token_fields-HaveLiterals toks)

-- A report, with any ttl, is such a request.
pub report_params-HasLiterals :
    (id source : String) (toks : Tokens) (ttl : ℤ)
    → HasLiterals (object (report_params id source toks ttl))
unfolding report_params
report_params-HasLiterals id source toks ttl =
    (tt, (tt, (token_fields-HaveLiterals toks, ttl_field-HaveLiterals ttl)))

response_field-OnlyMismatches :
    (k : String) (v : Json) (r : Response) → OnlyMismatches (response_field k v r)
unfolding response_field
response_field-OnlyMismatches k v r = elim (Bool-cases (is_field "result" k)) [
  | inl result ↦ rw result tt
  | inr other ↦ elim (Bool-cases (is_field "error" k)) [
    | inl error ↦
        rw (other, error)
          (then_OnlyMismatches (into_error v r.error) _ (into_error-OnlyMismatches v r.error)
            (λ e. tt))
    | inr unknown ↦ rw (other, unknown) tt
  ]
]

response_of_ends :
    (r : Result ParseError Json) → r ≢ err out_of_fuel → response_of r ≢ err (malformed out_of_fuel)
response_of_ends (err syntax) n e = cc
response_of_ends (err out_of_fuel) n e = n refl
response_of_ends (ok v) n e = subst OnlyMismatches e (
    into_struct-OnlyMismatches response_field response_field-OnlyMismatches v
      (record { result = none; error = none }))

-- Decoding the line of a reply ends on every text: with a response, or with an error that says that
-- the text is no JSON or that a value has the wrong type, never for want of fuel.
pub decode_response_ends : (line : String) → decode_response line ≢ err (malformed out_of_fuel)
unfolding decode_response
decode_response_ends line = response_of_ends (parse line) (parse_ends line)
