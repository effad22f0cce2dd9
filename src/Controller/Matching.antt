-- ===== src/Controller/Matching.antt =====
-- What `observedMatchesDesired` decides.
use herdr_tokens.Prelude.{String, eq_iff, true, Option, none, some, List, ◌≡◌, ◌∙◌, ◌↔◌, arith}
use herdr_tokens.Dict.{Dict, lookup, HasDistinctKeys}
use herdr_tokens.Dict.Laws.{all-entries_iff}
use herdr_tokens.Wire.{Workspace, Agent}
use herdr_tokens.Derive.{Tokens, desired}
use herdr_tokens.Derive.Tokens.{is_owned, wanted, lookup-desired, HasDistinctKeys-desired}
use herdr_tokens.Controller.{key_matches, observed_matches_desired}

key_matches_iff : (o v : Option String) → (key_matches o v ≡ true) ↔ (o ≡ v)
key_matches_iff none none = ground arith
key_matches_iff (some s) none = ground arith
key_matches_iff none (some t) = ground arith
key_matches_iff (some s) (some t) = ground (arith, eq_iff s t)

-- The observed tokens match if each key of the wanted map is observed as the map says: absent if it
-- is to be cleared, present with that value otherwise.
observed_matches_desired_iff :
    (observed : Dict String) (want : Tokens)
    → HasDistinctKeys want
    → (observed_matches_desired observed want ≡ true)
      ↔ ((k : String) (v : Option String) → lookup k want ≡ some v → lookup k observed ≡ v)
unfolding observed_matches_desired
observed_matches_desired_iff observed want h =
    let (to, from) = all-entries_iff (λ k v. key_matches (lookup k observed) v) want h in
    (
      λ e k v found. (key_matches_iff (lookup k observed) v).0 (to e k v found),
      λ f. from (λ k v found. (key_matches_iff (lookup k observed) v).1 (f k v found)),
    )

-- A workspace shows what is wanted: every owned key is observed so, whatever other keys there are.
abbrev pub Shows : Workspace → List Agent → String → Dict String → Type 0
Shows ws agents mode observed =
    (k : String) → is_owned k ≡ true → lookup k observed ≡ wanted ws agents mode k

-- The observed tokens match `Desired` exactly if every key that the plugin owns is observed as
-- wanted; keys of other plugins play no part.
pub observed_matches_desired-Shows :
    (ws : Workspace) (agents : List Agent) (mode : String) (observed : Dict String)
    → (observed_matches_desired observed (desired ws agents mode) ≡ true)
      ↔ Shows ws agents mode observed
observed_matches_desired-Shows ws agents mode observed =
    let (to, from) =
      observed_matches_desired_iff observed (desired ws agents mode)
        (HasDistinctKeys-desired ws agents mode) in
    (
      λ e k owned. to e k (wanted ws agents mode k) (lookup-desired ws agents mode k ∙ rw owned),
      λ shows. from (λ k v found. ground (arith, shows k, lookup-desired ws agents mode k)),
    )
