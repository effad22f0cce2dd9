-- ===== src/Client/Requests.antt =====
-- The tokens of a report, key by key.
use herdr_tokens.Prelude.{String, Option, none, some, [], ◌∷◌, ◌≡◌, refl, arith}
use herdr_tokens.Dict.{lookup}
use herdr_tokens.Json.{Json, entries}
use herdr_tokens.Derive.{Tokens}
use herdr_tokens.Client.{token_json, token_fields}

abbrev pub on_wire : Option (Option String) → Option Json
on_wire none = none
on_wire (some v) = some (token_json v)

pub lookup-token_fields :
    (k : String) (toks : Tokens) → lookup k (entries (token_fields toks)) ≡ on_wire (lookup k toks)
unfolding lookup
lookup-token_fields k [] = refl
lookup-token_fields k ((j, v) ∷ rest) = ground (arith, lookup-token_fields k rest)
