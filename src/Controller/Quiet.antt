-- ===== src/Controller/Quiet.antt =====
-- The steady state: a pass that finds everything as wanted and fresh.
use herdr_tokens.Prelude.{
  ℕ, String, ◌==◌, true, Option, none, some, List, [], ◌∷◌, ◌≡◌, refl, ◌∙◌, any, All, arith,
  if◌then◌else◌,
}
use herdr_tokens.Prelude.Int.{ℤ}
use herdr_tokens.Dict.{Dict, lookup}
use herdr_tokens.Dict.Laws.{lookup-retain}
use herdr_tokens.Config.{Config, fresh}
use herdr_tokens.Wire.{Workspace, Agent, Snapshot}
use herdr_tokens.Derive.{desired}
use herdr_tokens.Controller.{
  Reporter, Controller, Progress, skips, visit, visit_all, start, reconcile,
  observed_matches_desired,
}
use herdr_tokens.Controller.Matching.{Shows, observed_matches_desired-Shows}
use herdr_tokens.Controller.Tracking.{has_workspace, visit_all-seen}

-- The workspace's last write is recorded and fresh, and the snapshot shows its tokens as wanted.
pub record IsSettled (cfg : Config) (last : Dict ℤ) (agents : List Agent) (now : ℤ) (ws : Workspace)
    : Type 0 where
  pub at : ℤ
  pub recorded : lookup ws.workspace_id last ≡ some at
  pub recent : fresh cfg at now ≡ true
  pub shown : Shows ws agents cfg.value ws.tokens

module _ {World E : Type 0} (rep : Reporter World E) (cfg : Config) (agents : List Agent)
    (now : ℤ) where
  skips_of_IsSettled :
      (ws : Workspace) (last : Dict ℤ)
      → IsSettled cfg last agents now ws
      → skips cfg
          (lookup ws.workspace_id last)
          (observed_matches_desired ws.tokens (desired ws agents cfg.value))
          now
        ≡ true
  unfolding skips
  skips_of_IsSettled ws last s =
      rw (s.recorded, (observed_matches_desired-Shows ws agents cfg.value ws.tokens).1 s.shown)
        s.recent

  round_of_IsSettled :
      (ws : Workspace) (p : Progress World E)
      → IsSettled cfg p.last agents now ws
      → visit rep cfg agents now ws p ≡ record p { seen = ws.workspace_id ∷ p.seen }
  unfolding visit
  round_of_IsSettled ws p s = rw (skips_of_IsSettled ws p.last s)

  -- The rounds change nothing but `seen`.
  record IsUnchanged (p p' : Progress World E) : Type 0 where
    last : p'.last ≡ p.last
    written : p'.written ≡ p.written
    first_err : p'.first_err ≡ p.first_err
    world : p'.world ≡ p.world

  rounds-IsUnchanged :
      (wss : List Workspace) (p : Progress World E)
      → All (IsSettled cfg p.last agents now) wss
      → IsUnchanged p (visit_all rep cfg agents now wss p)
  unfolding visit_all
  rounds-IsUnchanged [] p h = record { last = refl; written = refl; first_err = refl; world = refl }
  rounds-IsUnchanged (ws ∷ wss) p (s, h) = rw (round_of_IsSettled ws p s) (
      let ih = rounds-IsUnchanged wss (record p { seen = ws.workspace_id ∷ p.seen }) h in
      record { last = ih.last; written = ih.written; first_err = ih.first_err; world = ih.world })

-- A pass that has changed nothing but to forget the workspaces that are gone.
pub record IsQuiet {World E : Type 0} (c : Controller) (snap : Snapshot) (w : World)
    (result : (ℕ × Option E) × Controller × World) : Type 0 where
  pub written : result.0.0 ≡ 0
  pub first_err : result.0.1 ≡ none
  pub world : result.2 ≡ w
  pub last :
      (id : String)
      → lookup id result.1.last
        ≡ (if has_workspace snap.workspaces id then lookup id c.last else none)

-- If every workspace of the snapshot was written recently and is shown as wanted, a pass makes no
-- call, whatever the reporter: it writes nothing, reports no error, and keeps the records of the
-- workspaces that are there.
pub reconcile-IsQuiet :
    {World E : Type 0} (rep : Reporter World E) (c : Controller) (snap : Snapshot) (now : ℤ)
    (w : World)
    → All (IsSettled c.cfg c.last snap.agents now) snap.workspaces
    → IsQuiet c snap w (reconcile rep c snap now w)
unfolding reconcile
reconcile-IsQuiet rep c snap now w h =
    let p = visit_all rep c.cfg snap.agents now snap.workspaces (start c w) in
    let same = rounds-IsUnchanged rep c.cfg snap.agents now snap.workspaces (start c w) h in
    let seen = visit_all-seen rep c.cfg snap.agents now snap.workspaces (start c w) in
    record {
      written = same.written;
      first_err = same.first_err;
      world = same.world;
      last = λ id.
          lookup-retain (λ id. any (λ j. j == id) p.seen) id p.last
          ∙ ground (arith, seen id, same.last);
    }
