-- ===== src/Schema/TokenRules.antt =====
-- schema.go's rules for the values of a workspace's tokens: `tokenValueRules` and what reads it.
use herdr_tokens.Order.{before}
use herdr_tokens.Prelude.{String, codes, ◌||◌, Option, none, some, List, [], ◌∷◌, if◌then◌else◌}
use herdr_tokens.Dict.{Dict, lookup, keys, each}
use herdr_tokens.Json.{Json, null, text, object, entries, type_name}
use herdr_tokens.Regexp.{Regex, range, seq, alt, literal, plus, matches}
use herdr_tokens.Schema.{
  Violation, Checker, addf, add_unless, child, one_of, pattern, bad_token_value, not_string,
  not_tokens, unknown_token,
}

abbrev pub digit : Regex
digit = range b'0' b'9'

abbrev pub lower : Regex
lower = range b'a' b'z'

-- `^(space-[a-z]+|space-x-[a-z]+|tab-\d+)$`
abbrev pub re_label : Regex
re_label =
    alt (seq (literal "space-") (plus lower))
      (alt (seq (literal "space-x-") (plus lower)) (seq (literal "tab-") (plus digit)))

-- `^\d+$`
abbrev pub re_decimal_count : Regex
re_decimal_count = plus digit

abbrev pub status_words : List String
status_words = "working" ∷ "blocked" ∷ "done" ∷ "idle" ∷ "unknown" ∷ "none" ∷ []

unfoldable pub token_status_or_label_value : Checker
unfolding matches
token_status_or_label_value path (text s) =
    add_unless (matches re_label (codes s) || one_of status_words s) path (bad_token_value s)
token_status_or_label_value path v = addf path (not_string (type_name v))

abbrev pub token_value_rules : Dict Checker
token_value_rules =
    ("st_working", token_status_or_label_value)
    ∷ ("st_blocked", token_status_or_label_value)
    ∷ ("st_done", token_status_or_label_value)
    ∷ ("st_idle", token_status_or_label_value)
    ∷ ("st_unknown", token_status_or_label_value)
    ∷ ("st_none", token_status_or_label_value)
    ∷ ("att_blocked", pattern "tokens.att_blocked" re_decimal_count)
    ∷ ("n_agents", pattern "tokens.n_agents" re_decimal_count)
    ∷ []

-- `sort.Strings`: the order of the bytes, and an insertion sort.
put_in_order : String → List String → List String
unfolding before
put_in_order k [] = k ∷ []
put_in_order k (j ∷ ks) =
    let rest = put_in_order k ks in if before (codes k) (codes j) then k ∷ j ∷ ks else j ∷ rest

sort_strings : List String → List String
unfolding put_in_order
sort_strings [] = []
sort_strings (k ∷ ks) = put_in_order k (sort_strings ks)

unfoldable pub sorted_keys {ℓ} : {V : Type ℓ} → Dict V → List String
unfolding sort_strings
sorted_keys m = sort_strings (keys m)

unfoldable pub allowed_token_keys : List String
unfolding sorted_keys
allowed_token_keys = sorted_keys token_value_rules

-- One entry of a token map: an unknown key, or a value under the key's rule.
abbrev pub check_token : String → String → Json → Option Checker → List Violation
check_token path k v none = addf (child path k) (unknown_token k)
check_token path k v (some rule) = rule (child path k) v

unfoldable pub check_tokens : String → Dict Json → List Violation
unfolding each
check_tokens path = each (λ k v. check_token path k v (lookup k token_value_rules))

unfoldable pub tokens_field : Checker
unfolding check_tokens
tokens_field path null = []
tokens_field path (object m) = check_tokens path (entries m)
tokens_field path v = addf path (not_tokens (type_name v))
