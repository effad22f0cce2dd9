-- ===== src/Schema/Agreement.antt =====
-- The tokens that the plugin writes are tokens that the fixture schema takes.
use herdr_tokens.Prelude.{
  ◌∙◌, ℕ, String, ◌==◌, eq_iff, codes, Bool, true, false, ◌||◌, none, some, List, [], ◌∷◌, ◌≡◌, ◌≢◌,
  ◌⊎◌, inl, inr, refl, sym, arith, Option-cases, Bool-cases, if◌then◌else◌, any, All,
}
use herdr_tokens.Dict.{lookup, HasDistinctKeys}
use herdr_tokens.Dict.Loops.{each-nil_iff}
use herdr_tokens.Json.{Json, text, object, entries, Fields}
use herdr_tokens.Wire.{Workspace, Agent}
use herdr_tokens.Decimal.{itoa, is_digit}
use herdr_tokens.Decimal.RoundTrip.{itoa-digits}
use herdr_tokens.Derive.{desired, status_token, token_value}
use herdr_tokens.Derive.Tokens.{
  is_owned, wanted, wanted_lem, count_text, agents_in, blocked_in, lookup-desired, IsStatusName,
  on_status_name, status_token-IsStatusName,
}
use herdr_tokens.Regexp.{matches, star}
use herdr_tokens.Regexp.Language.{Matches, matches_iff, char, both, stop, again}
use herdr_tokens.Schema.{pattern, one_of}
use herdr_tokens.Schema.Checkers.{pattern_iff}
use herdr_tokens.Schema.Tables.{agent_status_values}
use herdr_tokens.Schema.TokenRules.{
  digit, re_label, re_decimal_count, status_words, token_status_or_label_value, token_value_rules,
  allowed_token_keys, check_token, check_tokens, tokens_field,
}

digits-Matches : (s : List ℕ) → All (λ c. is_digit c ≡ true) s → Matches (star digit) s
digits-Matches [] h = stop
digits-Matches (c ∷ s) (d, h) =
    again (c ∷ []) s (c ∷ s) refl (char c (ground arith) (ground arith)) (digits-Matches s h)

count-Matches : (s : List ℕ) → s ≢ [] → All (λ c. is_digit c ≡ true) s → Matches re_decimal_count s
count-Matches [] ne h = absurd (ne refl)
count-Matches (c ∷ s) ne (d, h) =
    both (c ∷ []) s (c ∷ s) refl (char c (ground arith) (ground arith)) (digits-Matches s h)

-- What the schema says of a workspace: its label, and a status that is null or known.
pub record IsPlain (ws : Workspace) : Type 0 where
  pub labelled : Matches re_label (codes ws.label)
  pub known : (s : String) → ws.agent_status ≡ some s → one_of agent_status_values s ≡ true

known-word : (s : String) → one_of agent_status_values s ≡ true → one_of status_words s ≡ true
known-word s h = ground arith

word_or_label :
    (s path : String)
    → (matches re_label (codes s) ≡ true) ⊎ (one_of status_words s ≡ true)
    → token_status_or_label_value path (text s) ≡ []
unfolding token_status_or_label_value
word_or_label s path h = ground arith

-- The value of a status token is the label, or else the status or "none".
status_value :
    (ws : Workspace) (mode path : String)
    → IsPlain ws
    → token_status_or_label_value path (text (token_value ws mode)) ≡ []
unfolding token_value
status_value ws mode path plain = elim (Bool-cases (mode == "status")) [
  | inl word ↦ elim (Option-cases ws.agent_status) [
    | inl e ↦ rw (word, e) (word_or_label "none" path (inr refl))
    | inr (s, e) ↦ rw (word, e) (word_or_label s path (inr (known-word s (plain.known s e))))
  ]
  | inr label ↦
      rw label (
        word_or_label ws.label path
          (inl ((matches_iff re_label (codes ws.label)).1 plain.labelled)))
]

count_value : (kind path : String) (n : ℕ) → pattern kind re_decimal_count path (text (itoa n)) ≡ []
count_value kind path n =
    let (ne, digits) = itoa-digits n in
    (pattern_iff kind re_decimal_count path (text (itoa n))).1
      (itoa n, refl, count-Matches (codes (itoa n)) ne digits)

status_rule :
    (k : String) → IsStatusName k → lookup k token_value_rules ≡ some token_status_or_label_value
unfolding lookup
status_rule k h =
    on_status_name (λ k. lookup k token_value_rules ≡ some token_status_or_label_value) h refl refl
      refl refl refl refl

-- A key that is set carries the status value or a count.
data SetsText (ws : Workspace) (mode k t : String) : Type 0 where
  status : k ≡ status_token ws.agent_status → t ≡ token_value ws mode → SetsText ws mode k t
  blocked : (n : ℕ) → k ≡ "att_blocked" → t ≡ itoa n → SetsText ws mode k t
  total : (n : ℕ) → k ≡ "n_agents" → t ≡ itoa n → SetsText ws mode k t

count_text-some : (n : ℕ) (t : String) → count_text n ≡ some t → t ≡ itoa n
count_text-some n t h = ground arith

of_total :
    (ws : Workspace) (mode k t : String) (n : ℕ)
    → (if "n_agents" == k then count_text n else none) ≡ some t
    → SetsText ws mode k t
of_total ws mode k t n h =
    total n (ground (arith, eq_iff "n_agents" k)) (count_text-some n t (ground arith))

wanted-SetsText :
    (ws : Workspace) (agents : List Agent) (mode k t : String)
    → wanted ws agents mode k ≡ some t
    → SetsText ws mode k t
wanted-SetsText ws agents mode k t w =
    let h = sym (wanted_lem ws agents mode k) ∙ w in
    elim (Bool-cases (status_token ws.agent_status == k)) [
      | inl s ↦ status (sym ((eq_iff (status_token ws.agent_status) k).0 s)) (ground arith)
      | inr other ↦ elim (Bool-cases ("att_blocked" == k)) [
        | inl b ↦
            blocked (blocked_in ws.workspace_id agents) (sym ((eq_iff "att_blocked" k).0 b))
              (count_text-some _ t (rw (other, b) at h))
        | inr free ↦ of_total ws mode k t (agents_in ws.workspace_id agents) (rw (other, free) at h)
      ]
    ]

desired-SetsText :
    (ws : Workspace) (agents : List Agent) (mode k t : String)
    → lookup k (desired ws agents mode) ≡ some (some t)
    → SetsText ws mode k t
desired-SetsText ws agents mode k t h =
    wanted-SetsText ws agents mode k t (ground (arith, lookup-desired ws agents mode k))

token-accepted :
    (ws : Workspace) (mode path k t : String)
    → IsPlain ws
    → SetsText ws mode k t
    → check_token path k (text t) (lookup k token_value_rules) ≡ []
token-accepted ws mode path k t plain (status e v) =
    rw
      (e, v, status_rule (status_token ws.agent_status) (status_token-IsStatusName ws.agent_status))
      (status_value ws mode _ plain)
token-accepted ws mode path k t plain (blocked n e v) =
    rw (e, v) (unfold lookup in count_value "tokens.att_blocked" _ n)
token-accepted ws mode path k t plain (total n e v) =
    rw (e, v) (unfold lookup in count_value "tokens.n_agents" _ n)

-- A tokens object that shows what `Desired` sets: each of its fields is a text that `Desired` sets at
-- that key.
abbrev pub ShowsSet : Workspace → List Agent → String → Fields → Type 0
ShowsSet ws agents mode m =
    (k : String) (v : Json)
    → lookup k (entries m) ≡ some v
    → (t : String) × (v ≡ text t) × (lookup k (desired ws agents mode) ≡ some (some t))

-- For a workspace whose label and status the schema takes, the tokens that `Desired` sets pass the
-- schema's rule for tokens, in either mode of the `value` setting and for any agents.
pub tokens_field-desired :
    (ws : Workspace) (agents : List Agent) (mode path : String) (m : Fields)
    → HasDistinctKeys (entries m)
    → IsPlain ws
    → ShowsSet ws agents mode m
    → tokens_field path (object m) ≡ []
unfolding tokens_field check_tokens
tokens_field-desired ws agents mode path m distinct plain shows =
    (each-nil_iff (λ k v. check_token path k v (lookup k token_value_rules)) (entries m) distinct).1
      λ k v e.
        let (t, same, d) = shows k v e in
        rw same (token-accepted ws mode path k t plain (desired-SetsText ws agents mode k t d))

any_order :
    (a b c d e f g h : Bool)
    → (g || (h || (b || (c || (d || (f || (e || (a || false))))))))
      ≡ (a || (b || (c || (d || (e || (f || (g || (h || false))))))))
any_order a b c d e f g h = ground arith

-- A key is among those that the fixture schema allows in a tokens object exactly if the plugin owns
-- it.
pub allowed_token_keys-is_owned : (k : String) → any (λ j. j == k) allowed_token_keys ≡ is_owned k
unfolding allowed_token_keys is_owned
allowed_token_keys-is_owned k =
    any_order ("st_working" == k) ("st_blocked" == k) ("st_done" == k) ("st_idle" == k)
      ("st_unknown" == k) ("st_none" == k) ("att_blocked" == k) ("n_agents" == k)
