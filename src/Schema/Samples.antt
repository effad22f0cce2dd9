-- ===== src/Schema/Samples.antt =====
-- The theorems about the fixture schema at small documents.
use mathlib.Core.List.{Memᴰ}
use herdr_tokens.Prelude.{
  String, ◌==◌, codes, eq_iff, none, some, List, [], ◌∷◌, ◌≡◌, ◌↔◌, refl, arith, Bool-cases,
  if◌then◌else◌, inl, inr,
}
use herdr_tokens.Prelude.Result.{ok}
use herdr_tokens.Dict.{HasDistinctKeys, lookup, insert, each}
use herdr_tokens.Json.{
  Json, null, text, number, array, object, entries, Fields, field, no_fields, item, no_items,
}
use herdr_tokens.Json.Print.{print, put_body, put_raw, escape_of}
use herdr_tokens.Json.Parse.{
  parse, read_value, read_body, read_key, skip_ws, start_of, ahead, expect, piece, number_span,
}
use herdr_tokens.Json.Any.{decode_any, fits, merged}
use herdr_tokens.Decimal.{itoa}
use herdr_tokens.Derive.{desired, status_token, token_value, count_agents, clear_all, put_count}
use herdr_tokens.Derive.Tokens.{is_owned}
use herdr_tokens.Derive.Samples.{office, staff}
use herdr_tokens.Regexp.{matches}
use herdr_tokens.Regexp.Language.{Matches, matches_iff}
use herdr_tokens.Schema.{
  literal_string, array_of_objects, nullable_enum_string, enum_string, type_number, type_string,
  unknown_field, validate_object, FieldSpec, pattern, object_of, other_pattern,
}
use herdr_tokens.Schema.Reports.{Reported, mem-validate_object_iff}
use herdr_tokens.Schema.Checkers.{IsText, Accepts, below, here}
use herdr_tokens.Schema.TokenRules.{token_status_or_label_value, tokens_field, re_label}
use herdr_tokens.Schema.Tables.{
  validate_document, validate_fixture, layout_pane_schema, agent_schema, re_path, re_workspace_id,
}
use herdr_tokens.Schema.Agreement.{IsPlain, ShowsSet, tokens_field-desired}
use herdr_tokens.Schema.Fixture.{IsClean, AgentOf, clean_pattern, clean_object, agent_governed}

abbrev pub fields : List (String × Json) → Fields
fields [] = no_fields
fields ((k, v) ∷ rest) = field k v (fields rest)

abbrev one : Fields → Json
one m = array (item (object m) no_items)

abbrev agent_fields : String → Fields
agent_fields cwd = fields (
    ("workspace_id", text "w3")
    ∷ ("agent", text "claude")
    ∷ ("agent_status", null)
    ∷ ("cwd", text cwd)
    ∷ [])

abbrev workspace_fields : Fields
workspace_fields = fields (
    ("workspace_id", text "w3")
    ∷ ("label", text "space-x-edge")
    ∷ ("agent_status", text "idle")
    ∷ ("tokens", object (fields (("n_agents", text "1") ∷ ("st_idle", text "idle") ∷ [])))
    ∷ [])

abbrev snapshot_fields : String → Fields
snapshot_fields cwd = fields (
    ("workspaces", one workspace_fields)
    ∷ ("agents", one (agent_fields cwd))
    ∷ ("protocol", number "1")
    ∷ [])

abbrev pub root_fields : String → Fields
root_fields cwd =
    fields (("type", text "session_snapshot") ∷ ("snapshot", object (snapshot_fields cwd)) ∷ [])

abbrev pub placeholder : String
placeholder = "/Users/user/projects/proj12"

-- The text of a document with such a path.
abbrev pub fixture : String → String
fixture cwd = print (object (root_fields cwd)) "\n"

unfoldable pub computing : Unit {0}
unfolding validate_fixture validate_document lookup each pattern object_of tokens_field matches itoa
    literal_string array_of_objects nullable_enum_string enum_string token_status_or_label_value
    type_number type_string is_owned print put_body put_raw escape_of decode_any parse read_value
    read_body read_key skip_ws start_of ahead expect piece number_span fits merged
computing = tt

placeholder-IsClean : IsClean (fixture placeholder) (object (root_fields placeholder))
unfolding computing
placeholder-IsClean = (refl, refl)

abbrev pub real_path : String
real_path = "/Users/alice/projects/proj1"

-- A real path is reported at its place, and nothing else is.
a_leak :
    validate_fixture (fixture real_path)
    ≡ ok (
        record { path = "$.snapshot.agents[0].cwd"; reason = other_pattern "cwd" real_path re_path }
        ∷ [])
unfolding computing
a_leak = refl

placeholder_agent : AgentOf (root_fields placeholder) (object (agent_fields placeholder))
unfolding computing
placeholder_agent = record {
  snap = snapshot_fields placeholder;
  agents = item (object (agent_fields placeholder)) no_items;
  has_snapshot = refl;
  has_agents = refl;
  is_one = Memᴰ.head refl;
}

abbrev odd_pane : Fields
odd_pane = fields (("focused", null) ∷ ("title", text "x") ∷ [])

layout_pane_schema-HasDistinctKeys : HasDistinctKeys layout_pane_schema
layout_pane_schema-HasDistinctKeys = (
  (ground (arith, eq_iff "pane_id" "focused"), (ground (arith, eq_iff "rect" "focused"), tt)),
  ((ground (arith, eq_iff "rect" "pane_id"), tt), (tt, tt)),
)

mem-validate_object_iff_example :
    Memᴰ
      (record { path = "$.title"; reason = unknown_field })
      (validate_object "$" (entries odd_pane) layout_pane_schema)
    ↔ Reported "$"
        (entries odd_pane)
        layout_pane_schema
        (record { path = "$.title"; reason = unknown_field })
mem-validate_object_iff_example =
    mem-validate_object_iff "$" (entries odd_pane) layout_pane_schema
      (record { path = "$.title"; reason = unknown_field })
      ((ground (arith, eq_iff "title" "focused"), tt), (tt, tt)) layout_pane_schema-HasDistinctKeys

clean_pattern_example : IsText (λ s. Matches re_workspace_id (codes s)) (text "w3")
unfolding computing
clean_pattern_example =
    clean_pattern (fixture placeholder) (object (root_fields placeholder)) "workspace_id"
      re_workspace_id (text "w3") placeholder-IsClean
      (agent_governed (root_fields placeholder) (object (agent_fields placeholder))
        placeholder_agent
        (below agent_schema (agent_fields placeholder) "workspace_id" (text "w3") _ refl refl here))

clean_object_example :
    (spec : FieldSpec) × (lookup "agent" agent_schema ≡ some spec)
    × Accepts spec.check (text "claude")
unfolding computing
clean_object_example =
    clean_object (fixture placeholder) (object (root_fields placeholder)) agent_schema
      (agent_fields placeholder) "agent" (text "claude") placeholder-IsClean
      (agent_governed (root_fields placeholder) (object (agent_fields placeholder))
        placeholder_agent here)
      refl

abbrev office_shown : Fields
office_shown = fields (("st_blocked", text "space-a") ∷ ("n_agents", text "2") ∷ [])

office-IsPlain : IsPlain office
office-IsPlain = record {
  labelled = (matches_iff re_label (codes "space-a")).0 (unfold matches in refl);
  known = λ s e. ground (arith, eq_iff "blocked" s);
}

office_sets :
    (lookup "st_blocked" (desired office staff "label") ≡ some (some "space-a"))
    × (lookup "n_agents" (desired office staff "label") ≡ some (some "2"))
unfolding desired lookup insert status_token token_value count_agents clear_all put_count itoa
office_sets = (refl, refl)

last_field :
    (k : String) (v : Json)
    → (if "n_agents" == k then some (text "2") else none) ≡ some v
    → (k ≡ "n_agents") × (v ≡ text "2")
last_field k v e = ground (arith, eq_iff "n_agents" k)

office-ShowsSet : ShowsSet office staff "label" office_shown
unfolding lookup
office-ShowsSet k v e = elim (Bool-cases ("st_blocked" == k)) [
  | inl status ↦ ("space-a", ground arith, rw (← (eq_iff "st_blocked" k).0 status) office_sets.0)
  | inr other ↦
      let (key, value) = last_field k v (rw other at e) in ("2", value, rw key office_sets.1)
]

tokens_field-desired_example : tokens_field "$.tokens" (object office_shown) ≡ []
tokens_field-desired_example =
    tokens_field-desired office staff "label" "$.tokens" office_shown
      ((ground (arith, eq_iff "n_agents" "st_blocked"), tt), (tt, tt)) office-IsPlain
      office-ShowsSet

abbrev one_pane : Fields
one_pane = fields (("pane_id", text "w1:pA") ∷ [])
