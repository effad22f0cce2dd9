-- ===== src/Controller.antt =====
-- internal/controller/controller.go: the pass that writes tokens. The `Reporter` interface is an
-- argument; its state, the server's side included, is a `World` that each call takes and gives.
-- `c.last` holds the time of the last successful write of each workspace.
pub mod Matching
pub mod Tracking
pub mod Due
pub mod Calls
pub mod Server
pub mod Quiet
pub mod Samples
use herdr_tokens.Prelude.{
  ℕ, zero, suc, ◌+◌, String, ◌==◌, Bool, true, false, not, ◌&&◌, Option, none, some, List, [], ◌∷◌,
  if◌then◌else◌, all, any, length, is_some,
}
use herdr_tokens.Prelude.Int.{ℤ}
use herdr_tokens.Dict.{Dict, lookup, insert, retain}
use herdr_tokens.Config.{Config, fresh, milliseconds}
use herdr_tokens.Wire.{Workspace, Agent, Snapshot}
use herdr_tokens.Derive.{Tokens, desired, source}

-- `ReportWorkspaceMetadata(ctx, workspaceID, source, tokens, ttlMS)`; `none` is a nil error.
pub record Reporter (World E : Type 0) : Type 0 where
  pub report : String → String → Tokens → ℤ → World → Option E × World

pub record Controller : Type 0 where
  pub cfg : Config
  pub last : Dict ℤ

abbrev pub new : Config → Controller
new cfg = record { cfg = cfg; last = [] }

abbrev pub tracked : Controller → ℕ
tracked c = length c.last

abbrev pub invalidate : Controller → Controller
invalidate c = record c { last = [] }

-- One round of `observedMatchesDesired`: a key to clear is absent, a key to set has its value.
abbrev pub key_matches : Option String → Option String → Bool
key_matches observed none = not (is_some observed)
key_matches none (some want) = false
key_matches (some observed) (some want) = observed == want

unfoldable pub observed_matches_desired : Dict String → Tokens → Bool
observed_matches_desired observed want = all (λ e. key_matches (lookup e.0 observed) e.1) want

-- The variables of the loop of `Reconcile`.
pub record Progress (World E : Type 0) : Type 0 where
  pub last : Dict ℤ
  pub seen : List String
  pub written : ℕ
  pub first_err : Option E
  pub world : World

-- The guard of the write: tracked, matching and fresh.
unfoldable pub skips : Config → Option ℤ → Bool → ℤ → Bool
skips cfg none matches now = false
skips cfg (some written) matches now = matches && fresh cfg written now

-- `if firstErr == nil { firstErr = err }`
abbrev pub first {ℓ} : {E : Type ℓ} → Option E → E → E
first none err = err
first (some old) err = old

module _ {World E : Type 0} where
  abbrev pub after_report : String → ℤ → Progress World E → Option E × World → Progress World E
  after_report id now p (none, w) = record p {
    last = insert id now p.last;
    written = p.written + 1;
    world = w;
  }
  after_report id now p (some err, w) = record p {
    first_err = some (first p.first_err err);
    world = w;
  }

  -- One round of the loop.
  unfoldable pub visit :
      Reporter World E → Config → List Agent → ℤ → Workspace → Progress World E → Progress World E
  visit rep cfg agents now ws p =
      let want = desired ws agents cfg.value in
      let p' : Progress World E = record p { seen = ws.workspace_id ∷ p.seen } in
      if skips cfg (lookup ws.workspace_id p.last) (observed_matches_desired ws.tokens want) now
      then p'
      else after_report ws.workspace_id now p'
          (rep.report ws.workspace_id source want (milliseconds cfg.ttl) p.world)

  unfoldable pub visit_all :
      Reporter World E
      → Config
      → List Agent
      → ℤ
      → List Workspace
      → Progress World E
      → Progress World E
  visit_all rep cfg agents now [] p = p
  visit_all rep cfg agents now (ws ∷ rest) p =
      visit_all rep cfg agents now rest (visit rep cfg agents now ws p)

  abbrev pub start : Controller → World → Progress World E
  start c w = record { last = c.last; seen = []; written = 0; first_err = none; world = w }

  -- The loop that forgets the workspaces that are gone.
  abbrev pub prune : Progress World E → Dict ℤ
  prune p = retain (λ id. any (λ j. j == id) p.seen) p.last

  -- The result of a pass: the number of writes and the first error, the new state, and the world.
  unfoldable pub reconcile :
      Reporter World E → Controller → Snapshot → ℤ → World → (ℕ × Option E) × Controller × World
  reconcile rep c snap now w =
      let p = visit_all rep c.cfg snap.agents now snap.workspaces (start c w) in
      ((p.written, p.first_err), record c { last = prune p }, p.world)
