-- ===== src/Derive.antt =====
-- internal/derive/derive.go: the tokens that a workspace should carry. A token map holds a text, or
-- `none` for a key that is to be cleared.
pub mod Tokens
pub mod Samples
use herdr_tokens.Prelude.{
  ℕ, ◌+◌, String, ◌==◌, Bool, false, Option, none, some, List, [], ◌∷◌, ltb, if◌then◌else◌,
}
use herdr_tokens.Dict.{Dict, lookup, insert}
use herdr_tokens.Wire.{Workspace, Agent}
use herdr_tokens.Decimal.{itoa}

-- `Source`
abbrev pub source : String
source = "herdr-tokens"

abbrev pub all_tokens : List String
all_tokens =
    "st_working" ∷ "st_blocked" ∷ "st_done" ∷ "st_idle" ∷ "st_unknown" ∷ "st_none" ∷ "att_blocked"
    ∷ "n_agents" ∷ []

abbrev pub status_tokens : Dict String
status_tokens =
    ("working", "st_working")
    ∷ ("blocked", "st_blocked")
    ∷ ("done", "st_done")
    ∷ ("idle", "st_idle")
    ∷ ("unknown", "st_unknown")
    ∷ []

abbrev or_unknown : Option String → String
or_unknown none = "st_unknown"
or_unknown (some tok) = tok

unfoldable pub status_token : Option String → String
unfolding lookup
status_token none = "st_none"
status_token (some status) = or_unknown (lookup status status_tokens)

abbrev pub Tokens : Type 0
Tokens = Dict (Option String)

-- `for _, k := range AllTokens { out[k] = nil }`
unfoldable pub clear_all : List String → Tokens → Tokens
clear_all [] out = out
clear_all (k ∷ ks) out = clear_all ks (insert k none out)

abbrev or_none : Option String → String
or_none none = "none"
or_none (some status) = status

-- What the status token carries.
unfoldable pub token_value : Workspace → String → String
token_value ws mode = if mode == "status" then or_none ws.agent_status else ws.label

abbrev pub is_blocked : Agent → Bool
is_blocked a = elim a.agent_status [ none ↦ false | some status ↦ status == "blocked" ]

-- The loop over the agents, with its two counters.
unfoldable pub count_agents : String → List Agent → ℕ × ℕ → ℕ × ℕ
count_agents id [] counts = counts
count_agents id (a ∷ rest) (blocked, total) = count_agents id rest (
    if a.workspace_id == id
    then (if is_blocked a then blocked + 1 else blocked, total + 1)
    else (blocked, total))

-- `if n > 0 { out[k] = Itoa(n) }`
unfoldable pub put_count : String → ℕ → Tokens → Tokens
put_count k n out = if ltb 0 n then insert k (some (itoa n)) out else out

unfoldable pub desired : Workspace → List Agent → String → Tokens
desired ws agents mode =
    let out =
      insert (status_token ws.agent_status) (some (token_value ws mode))
        (clear_all all_tokens []) in
    let (blocked, total) = count_agents ws.workspace_id agents (0, 0) in
    put_count "n_agents" total (put_count "att_blocked" blocked out)
