-- ===== src/Plugin/Server/Storing.antt =====
-- What the server holds after a report.
use herdr_tokens.Prelude.{
  String, ◌==◌, eq_iff, true, Option, none, some, List, [], ◌∷◌, map, any, ◌≡◌, ◌≢◌, refl, ◌∙◌,
  arith, if◌then◌else◌, Bool-cases, inl, inr,
}
use herdr_tokens.Dict.{Dict, lookup}
use herdr_tokens.Dict.Laws.{lookup-insert, lookup-retain}
use herdr_tokens.Json.{
  Json, Fields, null, bool, number, text, array, object, field, no_fields, entries,
}
use herdr_tokens.Wire.{Workspace}
use herdr_tokens.Plugin.Server.{store_token, store_tokens, store_in, first_tokens}

-- A token after a report: as the report says, or as before if it does not name it.
abbrev pub after_token : Option Json → Option String → Option String
after_token none old = old
after_token (some (text s)) old = some s
after_token (some _) old = none

lookup-store_token :
    (k j : String) (v : Json) (m : Dict String)
    → lookup j (store_token k v m) ≡ (if k == j then after_token (some v) none else lookup j m)
lookup-store_token k j null m = lookup-retain _ j m ∙ ground (arith, eq_iff k j, eq_iff j k)
lookup-store_token k j (bool b) m = lookup-retain _ j m ∙ ground (arith, eq_iff k j, eq_iff j k)
lookup-store_token k j (number n) m = lookup-retain _ j m ∙ ground (arith, eq_iff k j, eq_iff j k)
lookup-store_token k j (text s) m = lookup-insert k j s m
lookup-store_token k j (array vs) m = lookup-retain _ j m ∙ ground (arith, eq_iff k j, eq_iff j k)
lookup-store_token k j (object fs) m = lookup-retain _ j m ∙ ground (arith, eq_iff k j, eq_iff j k)

after_token_lem : (v : Json) (a b : Option String) → after_token (some v) a ≡ after_token (some v) b
after_token_lem null a b = refl
after_token_lem (bool x) a b = refl
after_token_lem (number x) a b = refl
after_token_lem (text x) a b = refl
after_token_lem (array x) a b = refl
after_token_lem (object x) a b = refl

-- A token after a report.
pub lookup-store_tokens :
    (k : String) (fs : Fields) (m : Dict String)
    → lookup k (store_tokens fs m) ≡ after_token (lookup k (entries fs)) (lookup k m)
unfolding store_tokens lookup
lookup-store_tokens k no_fields m = refl
lookup-store_tokens k (field j v fs) m = elim (Bool-cases (j == k)) [
  | inl same ↦
      lookup-store_token j k v (store_tokens fs m) ∙ rw same (after_token_lem v none (lookup k m))
  | inr other ↦ lookup-store_token j k v (store_tokens fs m) ∙ rw other (lookup-store_tokens k fs m)
]

-- A report to a workspace of the session changes its tokens as it says.
pub first_tokens-stored :
    (id : String) (tokens : Fields) (wss : List Workspace)
    → any (λ ws. ws.workspace_id == id) wss ≡ true
    → first_tokens id (map (store_in id tokens) wss) ≡ store_tokens tokens (first_tokens id wss)
first_tokens-stored id tokens [] h = cc
first_tokens-stored id tokens (ws ∷ wss) h = ground (arith, first_tokens-stored id tokens wss)

-- It changes no other workspace.
pub first_tokens-stored_other :
    (id j : String) (tokens : Fields) (wss : List Workspace)
    → j ≢ id
    → first_tokens j (map (store_in id tokens) wss) ≡ first_tokens j wss
first_tokens-stored_other id j tokens [] n = refl
first_tokens-stored_other id j tokens (ws ∷ wss) n = ground (
  arith,
  first_tokens-stored_other id j tokens wss n,
  eq_iff ws.workspace_id id,
  eq_iff ws.workspace_id j,
)
