-- ===== src/Derive/Samples.antt =====
-- Runs of the derivation, and its theorems at a concrete workspace.
use herdr_tokens.Prelude.{◌≡◌, refl, none, some, List, [], ◌∷◌, if◌then◌else◌}
use herdr_tokens.Dict.{lookup, insert}
use herdr_tokens.Wire.{Workspace, Agent}
use herdr_tokens.Decimal.{itoa}
use herdr_tokens.Derive.{status_token, token_value, desired, count_agents, clear_all, put_count}
use herdr_tokens.Derive.Tokens.{wanted, is_owned, lookup-desired}

abbrev pub office : Workspace
office = record {
  workspace_id = "w1";
  label = "space-a";
  agent_status = some "blocked";
  tokens = ("st_idle", "space-a") ∷ ("other", "x") ∷ [];
}

abbrev pub lab : Workspace
lab = record { workspace_id = "w2"; label = "space-b"; agent_status = none; tokens = [] }

abbrev pub staff : List Agent
staff =
    record { workspace_id = "w1"; agent = "claude"; agent_status = some "blocked" }
    ∷ record { workspace_id = "w1"; agent = "codex"; agent_status = some "idle" }
    ∷ record { workspace_id = "w3"; agent = "codex"; agent_status = none }
    ∷ []

office_tokens :
    desired office staff "label"
    ≡ ("st_working", none)
      ∷ ("st_blocked", some "space-a")
      ∷ ("st_done", none)
      ∷ ("st_idle", none)
      ∷ ("st_unknown", none)
      ∷ ("st_none", none)
      ∷ ("att_blocked", some "1")
      ∷ ("n_agents", some "2")
      ∷ []
unfolding desired insert status_token token_value count_agents clear_all put_count itoa
office_tokens = refl

lab_status : lookup "st_none" (desired lab staff "status") ≡ some (some "none")
unfolding desired lookup insert status_token token_value count_agents clear_all put_count itoa
lab_status = refl

lookup-desired_example :
    lookup "st_blocked" (desired office staff "label")
    ≡ (if is_owned "st_blocked" then some (wanted office staff "label" "st_blocked") else none)
lookup-desired_example = lookup-desired office staff "label" "st_blocked"
