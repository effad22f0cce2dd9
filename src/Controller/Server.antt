-- ===== src/Controller/Server.antt =====
-- A pass against a server that stores what it accepts: afterwards it shows every workspace's tokens,
-- whatever it showed before; and a pass that finds everything as wanted and fresh writes nothing.
use herdr_tokens.Prelude.{
  String, Bool, true, false, Option, none, some, List, [], ◌∷◌, ◌≡◌, ◌≢◌, refl, sym, ◌∙◌, All,
  arith, inl, inr, Bool-cases, if◌then◌else◌, map,
}
use herdr_tokens.Prelude.Int.{ℤ}
use herdr_tokens.Dict.{Dict, Distinct, lookup}
use herdr_tokens.Config.{Config, milliseconds}
use herdr_tokens.Wire.{Workspace, Agent, Snapshot}
use herdr_tokens.Derive.{Tokens, desired, source}
use herdr_tokens.Derive.Tokens.{is_owned, wanted, lookup-desired}
use herdr_tokens.Controller.{
  Reporter, Controller, Progress, skips, visit, visit_all, start, reconcile,
  observed_matches_desired,
}
use herdr_tokens.Controller.Matching.{Shows, observed_matches_desired-Shows}

-- What the documentation of `report_metadata` says: an accepted write sets the keys that have a
-- value, clears those that have none, and no write touches another workspace.
pub record Server {World E : Type 0} (rep : Reporter World E) (held : World → String → Dict String)
    : Type 0 where
  pub stores :
      (id src : String) (toks : Tokens) (ttl : ℤ) (w : World) (k : String) (v : Option String)
      → (rep.report id src toks ttl w).0 ≡ none
      → lookup k toks ≡ some v
      → lookup k (held (rep.report id src toks ttl w).1 id) ≡ v
  pub separate :
      (id src : String) (toks : Tokens) (ttl : ℤ) (w : World) (j : String)
      → j ≢ id
      → held (rep.report id src toks ttl w).1 j ≡ held w j

module _ {World E : Type 0} (rep : Reporter World E) (held : World → String → Dict String)
    (server : Server rep held) (cfg : Config) (agents : List Agent) (now : ℤ) where
  abbrev round : Workspace → Progress World E → Progress World E
  round = visit rep cfg agents now

  -- A pass without an error so far had none before.
  round-first_err :
      (ws : Workspace) (p : Progress World E) → (round ws p).first_err ≡ none → p.first_err ≡ none
  unfolding visit
  round-first_err ws p h = ground arith

  rounds-first_err :
      (wss : List Workspace) (p : Progress World E)
      → (visit_all rep cfg agents now wss p).first_err ≡ none
      → p.first_err ≡ none
  unfolding visit_all
  rounds-first_err [] p h = h
  rounds-first_err (ws ∷ wss) p h = round-first_err ws p (rounds-first_err wss (round ws p) h)

  round-held :
      (ws : Workspace) (p : Progress World E) (j : String)
      → j ≢ ws.workspace_id
      → held (round ws p).world j ≡ held p.world j
  unfolding visit
  round-held ws p j n = ground (
    arith,
    server.separate ws.workspace_id source (desired ws agents cfg.value) (milliseconds cfg.ttl)
        p.world j n,
  )

  -- The snapshot says of the workspace's owned keys what the server holds.
  abbrev pub IsCurrent : World → Workspace → Type 0
  IsCurrent w ws =
      (k : String) → is_owned k ≡ true → lookup k ws.tokens ≡ lookup k (held w ws.workspace_id)

  -- The server holds what is wanted.
  abbrev pub IsShown : World → Workspace → Type 0
  IsShown w ws = Shows ws agents cfg.value (held w ws.workspace_id)

  abbrev sent : Workspace → World → Option E × World
  sent ws w =
      rep.report ws.workspace_id source (desired ws agents cfg.value) (milliseconds cfg.ttl) w

  abbrev skipped : Workspace → Progress World E → Bool
  skipped ws p =
      skips cfg (lookup ws.workspace_id p.last)
        (observed_matches_desired ws.tokens (desired ws agents cfg.value)) now

  round-world :
      (ws : Workspace) (p : Progress World E)
      → (round ws p).world ≡ (if skipped ws p then p.world else (sent ws p.world).1)
  unfolding visit
  round-world ws p = ground arith

  matches_of_skipped :
      (ws : Workspace) (p : Progress World E)
      → skipped ws p ≡ true
      → observed_matches_desired ws.tokens (desired ws agents cfg.value) ≡ true
  unfolding skips
  matches_of_skipped ws p h = ground arith

  sent_of_no_error :
      (ws : Workspace) (p : Progress World E)
      → (round ws p).first_err ≡ none
      → skipped ws p ≡ false
      → (sent ws p.world).0 ≡ none
  unfolding visit
  sent_of_no_error ws p h s = ground arith

  round-IsShown :
      (ws : Workspace) (p : Progress World E)
      → (round ws p).first_err ≡ none
      → IsCurrent p.world ws
      → IsShown (round ws p).world ws
  round-IsShown ws p h current = elim (Bool-cases (skipped ws p)) [
    | inl skip ↦ λ k owned.
        rw (round-world ws p, skip)
          (sym (current k owned)
            ∙ (observed_matches_desired-Shows ws agents cfg.value ws.tokens).0
                (matches_of_skipped ws p skip) k owned)
    | inr write ↦ λ k owned.
        rw (round-world ws p, write)
          (server.stores ws.workspace_id source (desired ws agents cfg.value) (milliseconds cfg.ttl)
            p.world k (wanted ws agents cfg.value k) (sent_of_no_error ws p h write)
            (lookup-desired ws agents cfg.value k ∙ rw owned))
  ]

  abbrev ids : List Workspace → List String
  ids = map (λ ws. ws.workspace_id)

  rounds-held :
      (wss : List Workspace) (p : Progress World E) (j : String)
      → All (λ i. i ≢ j) (ids wss)
      → held (visit_all rep cfg agents now wss p).world j ≡ held p.world j
  unfolding visit_all
  rounds-held [] p j n = refl
  rounds-held (ws ∷ wss) p j (n, ns) =
      rounds-held wss (round ws p) j ns ∙ round-held ws p j (λ e. n (sym e))

  IsCurrent-round :
      (ws : Workspace) (wss : List Workspace) (p : Progress World E)
      → All (λ j. j ≢ ws.workspace_id) (ids wss)
      → All (IsCurrent p.world) wss
      → All (IsCurrent (round ws p).world) wss
  IsCurrent-round ws [] p n c = tt
  IsCurrent-round ws (x ∷ wss) p (n, ns) (c, cs) =
      (λ k owned. rw (round-held ws p x.workspace_id n) (c k owned), IsCurrent-round ws wss p ns cs)

  rounds-IsShown :
      (wss : List Workspace) (p : Progress World E)
      → Distinct (ids wss)
      → All (IsCurrent p.world) wss
      → (visit_all rep cfg agents now wss p).first_err ≡ none
      → All (IsShown (visit_all rep cfg agents now wss p).world) wss
  unfolding visit_all
  rounds-IsShown [] p u c h = tt
  rounds-IsShown (ws ∷ wss) p (n, u) (c, cs) h = (
    λ k owned.
        rw (rounds-held wss (round ws p) ws.workspace_id n)
          (round-IsShown ws p (rounds-first_err wss (round ws p) h) c k owned),
    rounds-IsShown wss (round ws p) u (IsCurrent-round ws wss p n cs) h,
  )

-- Against a server that stores what it accepts, a pass over a snapshot with different ids that says
-- what the server holds, and in which no write fails, leaves every workspace of the snapshot showing
-- the tokens it should have, whatever the controller remembers and whatever the server held before.
pub reconcile-IsShown :
    {World E : Type 0} (rep : Reporter World E) (held : World → String → Dict String)
    (server : Server rep held) (c : Controller) (snap : Snapshot) (now : ℤ) (w : World)
    → Distinct (map (λ (ws : Workspace). ws.workspace_id) snap.workspaces)
    → All (IsCurrent rep held server c.cfg snap.agents now w) snap.workspaces
    → (reconcile rep c snap now w).0.1 ≡ none
    → All
        (λ ws.
          Shows ws snap.agents c.cfg.value (held (reconcile rep c snap now w).2 ws.workspace_id))
        snap.workspaces
unfolding reconcile
reconcile-IsShown rep held server c snap now w u current h =
    rounds-IsShown rep held server c.cfg snap.agents now snap.workspaces (start c w) u current h
