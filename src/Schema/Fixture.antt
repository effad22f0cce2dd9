-- ===== src/Schema/Fixture.antt =====
-- What a fixture without violations is known to hold.
use mathlib.Core.List.{Memᴰ}
use herdr_tokens.Prelude.{String, codes, some, List, [], ◌≡◌, refl}
use herdr_tokens.Prelude.Result.{Result, ok}
use herdr_tokens.Dict.{lookup}
use herdr_tokens.Json.{Json, object, array, entries, elements, Fields, Items}
use herdr_tokens.Json.Any.{AnyError, decode_any}
use herdr_tokens.Regexp.{Regex}
use herdr_tokens.Regexp.Language.{Matches}
use herdr_tokens.Schema.{Violation, Checker, FieldSpec, ObjectSchema, pattern, object_of}
use herdr_tokens.Schema.Tables.{
  root_schema, snapshot_schema, agent_schema, validate_document, validate_fixture,
}
use herdr_tokens.Schema.Checkers.{
  Accepts, Governs, below, inside, Governs-Accepts, Accepts-named, IsText, pattern_iff,
}

clean_root : (doc : Json) → validate_document doc ≡ [] → Accepts (object_of root_schema) doc
unfolding validate_document object_of
clean_root (object m) h = ("$", h)
clean_root Json.null h = cc
clean_root (Json.bool b) h = cc
clean_root (Json.number n) h = cc
clean_root (Json.text s) h = cc
clean_root (array _) h = cc

-- The document that a fixture's bytes decode to has no violation.
abbrev pub IsClean : String → Json → Type 0
IsClean contents doc = (decode_any contents ≡ ok doc) × (validate_fixture contents ≡ ok [])

clean_document :
    (contents : String) (doc : Json) → IsClean contents doc → Accepts (object_of root_schema) doc
unfolding validate_fixture
clean_document contents doc (d, h) =
    let e : ◌≡◌ {A = Result AnyError (List Violation)} (ok (validate_document doc)) (ok []) =
      rw (d, validate_fixture) at h in
    clean_root doc cc

-- In a fixture without violations, a value at any depth under a pattern rule is a text in the
-- rule's language.
pub clean_pattern :
    (contents : String) (doc : Json) (kind : String) (re : Regex) (w : Json)
    → IsClean contents doc
    → Governs (pattern kind re) w (object_of root_schema) doc
    → IsText (λ s. Matches re (codes s)) w
clean_pattern contents doc kind re w clean g =
    let (path, h) = Governs-Accepts _ _ _ _ g (clean_document contents doc clean) in
    (pattern_iff kind re path w).0 h

-- In a fixture without violations, every field of an object at any depth is one that the schema for
-- its place names, with a value that the field's rule accepts.
pub clean_object :
    (contents : String) (doc : Json) (schema : ObjectSchema) (m : Fields) (k : String) (v : Json)
    → IsClean contents doc
    → Governs (object_of schema) (object m) (object_of root_schema) doc
    → lookup k (entries m) ≡ some v
    → (spec : FieldSpec) × (lookup k schema ≡ some spec) × Accepts spec.check v
clean_object contents doc schema m k v clean g e =
    Accepts-named schema m k v (Governs-Accepts _ _ _ _ g (clean_document contents doc clean)) e

-- An agent of the snapshot in a document.
pub record AgentOf (root : Fields) (a : Json) : Type 0 where
  pub snap : Fields
  pub agents : Items
  pub has_snapshot : lookup "snapshot" (entries root) ≡ some (object snap)
  pub has_agents : lookup "agents" (entries snap) ≡ some (array agents)
  pub is_one : Memᴰ a (elements agents)

pub agent_governed :
    {d : Checker} {w : Json} (root : Fields) (a : Json)
    → AgentOf root a
    → Governs d w (object_of agent_schema) a
    → Governs d w (object_of root_schema) (object root)
unfolding lookup
agent_governed root a place g =
    below root_schema root "snapshot" (object place.snap) _ place.has_snapshot refl (
      below snapshot_schema place.snap "agents" (array place.agents) _ place.has_agents refl
        (inside agent_schema place.agents a place.is_one g))
