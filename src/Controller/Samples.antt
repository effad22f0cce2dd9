-- ===== src/Controller/Samples.antt =====
-- Runs of a pass, a server that keeps what it is sent, and the theorems at concrete snapshots.
use herdr_tokens.Prelude.{
  String, ◌==◌, eq_iff, eq_refl, true, not, Option, none, some, List, [], ◌∷◌, map, ◌≡◌, ◌↔◌, refl,
  All, arith, if◌then◌else◌,
}
use herdr_tokens.Prelude.Int.{pos, sub_time}
use herdr_tokens.Dict.{Dict, Distinct, lookup, insert, retain}
use herdr_tokens.Dict.Laws.{lookup-insert, lookup-retain}
use herdr_tokens.Config.{default, second, milliseconds, heartbeat_age}
use herdr_tokens.Wire.{Workspace, Snapshot}
use herdr_tokens.Derive.{
  Tokens, desired, put_count, count_agents, clear_all, status_token, token_value,
}
use herdr_tokens.Derive.Samples.{office, lab, staff}
use herdr_tokens.Controller.{
  Reporter, Controller, reconcile, observed_matches_desired, skips, visit, visit_all,
}
use herdr_tokens.Controller.Matching.{Shows, observed_matches_desired-Shows}
use herdr_tokens.Controller.Calls.{scripted, IsPass, reconcile-IsPass}
use herdr_tokens.Controller.Server.{Server, reconcile-IsShown}
use herdr_tokens.Controller.Quiet.{IsSettled, IsQuiet, reconcile-IsQuiet}

abbrev pub both : Snapshot
both = record { workspaces = office ∷ lab ∷ []; agents = staff }

-- It remembers a workspace that is there and one that is gone.
abbrev pub remembering : Controller
remembering = record { cfg = default; last = ("w1", pos 0) ∷ ("w9", pos 0) ∷ [] }

abbrev pub lab_fails : String → Option String
lab_fails id = if id == "w2" then some "dial" else none

pub two_ids-Distinct : Distinct ("w1" ∷ "w2" ∷ [])
two_ids-Distinct = ((ground (arith, eq_iff "w2" "w1"), tt), (tt, tt))

abbrev ids_of : Snapshot → List String
ids_of snap = map (λ (ws : Workspace). ws.workspace_id) snap.workspaces

computing : Unit {0}
unfolding reconcile visit visit_all skips observed_matches_desired desired put_count count_agents
    clear_all status_token token_value lookup insert retain sub_time heartbeat_age milliseconds
computing = tt

-- One write is due and succeeds, one fails, and the record of the third workspace goes.
a_pass :
    ((reconcile (scripted lab_fails) remembering both (pos second) []).0 ≡ (1, some "dial"))
    × ((reconcile (scripted lab_fails) remembering both (pos second) []).1.last
        ≡ ("w1", pos second) ∷ [])
unfolding computing
a_pass = (refl, refl)

observed_matches_desired-Shows_example :
    (observed_matches_desired office.tokens (desired office staff "label") ≡ true)
    ↔ Shows office staff "label" office.tokens
observed_matches_desired-Shows_example =
    observed_matches_desired-Shows office staff "label" office.tokens

reconcile-IsPass_example :
    IsPass lab_fails remembering both
      (pos second)
      []
      (reconcile (scripted lab_fails) remembering both (pos second) [])
reconcile-IsPass_example =
    reconcile-IsPass lab_fails remembering both (pos second) [] two_ids-Distinct

-- A server in memory: a write sets and clears the keys of its workspace.
apply_tokens : Tokens → Dict String → Dict String
apply_tokens [] m = m
apply_tokens ((k, none) ∷ rest) m = retain (λ j. not (j == k)) (apply_tokens rest m)
apply_tokens ((k, some t) ∷ rest) m = insert k t (apply_tokens rest m)

lookup-apply_tokens :
    (toks : Tokens) (m : Dict String) (k : String) (v : Option String)
    → lookup k toks ≡ some v
    → lookup k (apply_tokens toks m) ≡ v
unfolding apply_tokens lookup
lookup-apply_tokens [] m k v e = cc
lookup-apply_tokens ((j, none) ∷ rest) m k v e = ground (
  arith,
  lookup-retain (λ i. not (i == j)) k (apply_tokens rest m),
  lookup-apply_tokens rest m k v,
  eq_iff j k,
  eq_iff k j,
)
lookup-apply_tokens ((j, some t) ∷ rest) m k v e =
    ground
      (arith, lookup-insert j k t (apply_tokens rest m), lookup-apply_tokens rest m k v, eq_iff j k)

abbrev memory : Reporter (String → Dict String) String
memory = record {
  report = λ id src toks ttl w. (none, λ j. if j == id then apply_tokens toks (w j) else w j);
}

memory-Server : Server memory (λ w id. w id)
memory-Server = record {
  stores =
      λ id src toks ttl w k v ok found. rw (eq_refl id) (lookup-apply_tokens toks (w id) k v found);
  separate = λ id src toks ttl w j n. ground (arith, eq_iff j id);
}

abbrev at_start : String → Dict String
at_start id = if id == "w1" then office.tokens else []

reconcile-IsShown_example :
    All
      (λ ws.
        Shows ws staff "label"
          ((reconcile memory remembering both (pos second) at_start).2 ws.workspace_id))
      (office ∷ lab ∷ [])
unfolding computing
reconcile-IsShown_example =
    reconcile-IsShown memory (λ w id. w id) memory-Server remembering both (pos second) at_start
      two_ids-Distinct ((λ k owned. refl), ((λ k owned. refl), tt)) refl

abbrev lab_shown : Workspace
lab_shown = record lab { tokens = ("st_none", "space-b") ∷ ("other", "x") ∷ [] }

abbrev lab_only : Snapshot
lab_only = record { workspaces = lab_shown ∷ []; agents = staff }

abbrev knows_lab : Controller
knows_lab = record { cfg = default; last = ("w2", pos 0) ∷ [] }

lab-IsSettled : IsSettled default knows_lab.last staff (pos second) lab_shown
unfolding computing
lab-IsSettled = record {
  at = pos 0;
  recorded = refl;
  recent = refl;
  shown = (observed_matches_desired-Shows lab_shown staff "label" lab_shown.tokens).0 refl;
}

reconcile-IsQuiet_example :
    IsQuiet knows_lab lab_only at_start (reconcile memory knows_lab lab_only (pos second) at_start)
reconcile-IsQuiet_example =
    reconcile-IsQuiet memory knows_lab lab_only (pos second) at_start (lab-IsSettled, tt)
