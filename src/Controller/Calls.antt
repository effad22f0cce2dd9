-- ===== src/Controller/Calls.antt =====
-- What a pass sends, counts, reports and records, workspace by workspace, when each workspace's write
-- fails or succeeds on its own.
use herdr_tokens.Prelude.{
  ℕ, ◌+◌, String, ◌==◌, eq_iff, Bool, not, ◌&&◌, Option, none, some, List, [], ◌∷◌, ◌++◌, ◌≡◌, ◌≢◌,
  refl, sym, ◌∙◌, ap, any, All, arith, if◌then◌else◌, map, is_some, keep_if, count_if,
}
use mathlib.Core.List.{append_assoc, append-nil}
use herdr_tokens.Prelude.Int.{ℤ}
use herdr_tokens.Dict.{Dict, Distinct, lookup}
use herdr_tokens.Dict.Laws.{lookup-insert, lookup-retain}
use herdr_tokens.Config.{Config, milliseconds}
use herdr_tokens.Wire.{Workspace, Agent, Snapshot}
use herdr_tokens.Derive.{Tokens, desired, source}
use herdr_tokens.Controller.{
  Reporter, Controller, Progress, visit, visit_all, start, reconcile, invalidate,
}
use herdr_tokens.Controller.Due.{due, due_at, skips-due}
use herdr_tokens.Controller.Tracking.{has_workspace, visit_all-seen}

pub record Call : Type 0 where
  pub workspace_id : String
  pub source : String
  pub tokens : Tokens
  pub ttl_ms : ℤ

-- A reporter that logs each call, and fails for the workspaces that it is told to.
abbrev pub scripted : {E : Type 0} → (String → Option E) → Reporter (List Call) E
scripted fails = record {
  report = λ id src toks ttl log. (
    fails id,
    log ++ record { workspace_id = id; source = src; tokens = toks; ttl_ms = ttl } ∷ [],
  );
}

module _ {E : Type 0} (fails : String → Option E) (cfg : Config) (agents : List Agent)
    (now : ℤ) where
  -- It is to be written, and the write succeeds.
  abbrev pub succeeds : Dict ℤ → Workspace → Bool
  succeeds d ws = due cfg agents now d ws && not (is_some (fails ws.workspace_id))

  abbrev pub call_of : Workspace → Call
  call_of ws = record {
    workspace_id = ws.workspace_id;
    source = source;
    tokens = desired ws agents cfg.value;
    ttl_ms = milliseconds cfg.ttl;
  }

  abbrev pub or_else : Option E → Option E → Option E
  or_else none y = y
  or_else (some x) y = some x

  -- The error of the first workspace whose write fails.
  abbrev pub first_failure : Dict ℤ → List Workspace → Option E
  first_failure d [] = none
  first_failure d (ws ∷ rest) =
      if due cfg agents now d ws
      then or_else (fails ws.workspace_id) (first_failure d rest)
      else first_failure d rest

  abbrev round : Workspace → Progress (List Call) E → Progress (List Call) E
  round = visit (scripted fails) cfg agents now

  round-world :
      (ws : Workspace) (p : Progress (List Call) E)
      → (round ws p).world
        ≡ p.world ++ (if due cfg agents now p.last ws then call_of ws ∷ [] else [])
  unfolding visit
  round-world ws p = ground (arith, skips-due cfg agents now p.last ws, append-nil p.world)

  round-written :
      (ws : Workspace) (p : Progress (List Call) E)
      → (round ws p).written ≡ p.written + (if succeeds p.last ws then 1 else 0)
  unfolding visit
  round-written ws p = ground (arith, skips-due cfg agents now p.last ws)

  round-first_err :
      (ws : Workspace) (p : Progress (List Call) E)
      → (round ws p).first_err ≡ (
          if due cfg agents now p.last ws
          then or_else p.first_err (fails ws.workspace_id)
          else p.first_err)
  unfolding visit
  round-first_err ws p = ground (arith, skips-due cfg agents now p.last ws)

  round-last :
      (ws : Workspace) (p : Progress (List Call) E) (id : String)
      → lookup id (round ws p).last
        ≡ (if succeeds p.last ws && ws.workspace_id == id then some now else lookup id p.last)
  unfolding visit
  round-last ws p id =
      ground
        (arith, skips-due cfg agents now p.last ws, lookup-insert ws.workspace_id id now p.last)

  -- The records say of each listed workspace what they said at the start.
  abbrev SameAt : Dict ℤ → Dict ℤ → List Workspace → Type 0
  SameAt d last = All (λ ws. lookup ws.workspace_id last ≡ lookup ws.workspace_id d)

  abbrev pub ids : List Workspace → List String
  ids = map (λ ws. ws.workspace_id)

  SameAt-round :
      (d : Dict ℤ) (ws : Workspace) (wss : List Workspace) (p : Progress (List Call) E)
      → All (λ j. j ≢ ws.workspace_id) (ids wss)
      → SameAt d p.last wss
      → SameAt d (round ws p).last wss
  SameAt-round d ws [] p n h = tt
  SameAt-round d ws (x ∷ wss) p (n, ns) (e, es) = (
    ground (arith, round-last ws p x.workspace_id, eq_iff ws.workspace_id x.workspace_id),
    SameAt-round d ws wss p ns es,
  )

  -- What the rounds over a list of workspaces have done.
  record Summary (d : Dict ℤ) (wss : List Workspace) (p p' : Progress (List Call) E) : Type 0 where
    world : p'.world ≡ p.world ++ map call_of (keep_if (due cfg agents now d) wss)
    written : p'.written ≡ p.written + count_if (succeeds d) wss
    first_err : p'.first_err ≡ or_else p.first_err (first_failure d wss)
    last :
        (id : String)
        → lookup id p'.last ≡ (
            if any (λ ws. succeeds d ws && ws.workspace_id == id) wss
            then some now
            else lookup id p.last)

  rounds-Summary :
      (d : Dict ℤ) (wss : List Workspace) (p : Progress (List Call) E)
      → Distinct (ids wss)
      → SameAt d p.last wss
      → Summary d wss p (visit_all (scripted fails) cfg agents now wss p)
  unfolding visit_all
  rounds-Summary d [] p u h = record {
    world = sym (append-nil p.world);
    written = ground arith;
    first_err = ground arith;
    last = λ id. refl;
  }
  rounds-Summary d (ws ∷ rest) p (n, u) (e, h) =
      let ih = rounds-Summary d rest (round ws p) u (SameAt-round d ws rest p n h) in
      let same = due_at cfg agents now d p.last ws e in
      record {
        world = ground (
          arith,
          same,
          ih.world,
          round-world ws p,
          append_assoc p.world (call_of ws ∷ [])
              (map call_of (keep_if (due cfg agents now d) rest)),
          append-nil p.world,
        );
        written = ground (arith, same, ih.written, round-written ws p);
        first_err = ground (arith, same, ih.first_err, round-first_err ws p);
        last = λ id. ground (arith, same, ih.last id, round-last ws p id);
      }

-- The outcome of a pass: what was logged, counted and reported, and what each id is recorded with.
pub record IsPass {E : Type 0} (fails : String → Option E) (c : Controller) (snap : Snapshot)
    (now : ℤ) (before : List Call) (result : (ℕ × Option E) × Controller × List Call) : Type 0 where
  pub log :
      result.2
      ≡ before
        ++ map
            (call_of fails c.cfg snap.agents now)
            (keep_if (due c.cfg snap.agents now c.last) snap.workspaces)
  pub written : result.0.0 ≡ count_if (succeeds fails c.cfg snap.agents now c.last) snap.workspaces
  pub first_err : result.0.1 ≡ first_failure fails c.cfg snap.agents now c.last snap.workspaces
  pub last :
      (id : String)
      → lookup id result.1.last ≡ (
          if has_workspace snap.workspaces id
          then (if any
                (λ ws. succeeds fails c.cfg snap.agents now c.last ws && ws.workspace_id == id)
                snap.workspaces
              then some now
              else lookup id c.last)
          else none)
  pub cfg : result.1.cfg ≡ c.cfg

SameAt-refl :
    {E : Type 0} (fails : String → Option E) (cfg : Config) (agents : List Agent) (now : ℤ)
    (d : Dict ℤ) (wss : List Workspace)
    → SameAt fails cfg agents now d d wss
SameAt-refl fails cfg agents now d [] = tt
SameAt-refl fails cfg agents now d (ws ∷ wss) = (refl, SameAt-refl fails cfg agents now d wss)

-- With a reporter that logs its calls and fails for given workspaces, and if the workspaces of the
-- snapshot have different ids, a pass calls the reporter for just those that are due by the records at
-- its start (no write is recorded, or the last one is not younger than a third of the TTL, or the
-- snapshot does not show what is wanted), in order and each with the tokens that it should have; it
-- counts the calls that succeed, returns the error of the first that fails, records the present time
-- for those that succeed, keeps the record of the others, and drops that of workspaces that are gone.
pub reconcile-IsPass :
    {E : Type 0} (fails : String → Option E) (c : Controller) (snap : Snapshot) (now : ℤ)
    (log : List Call)
    → Distinct (map (λ (ws : Workspace). ws.workspace_id) snap.workspaces)
    → IsPass fails c snap now log (reconcile (scripted fails) c snap now log)
unfolding reconcile
reconcile-IsPass fails c snap now log u =
    let p = visit_all (scripted fails) c.cfg snap.agents now snap.workspaces (start c log) in
    let s =
      rounds-Summary fails c.cfg snap.agents now c.last snap.workspaces (start c log) u
        (SameAt-refl fails c.cfg snap.agents now c.last snap.workspaces) in
    record {
      log = s.world;
      written = ground (arith, s.written);
      first_err = s.first_err;
      last = λ id.
          lookup-retain (λ id. any (λ j. j == id) p.seen) id p.last
          ∙ ground (
            arith,
            s.last id,
            visit_all-seen (scripted fails) c.cfg snap.agents now snap.workspaces (start c log) id,
          );
      cfg = refl;
    }

all_due :
    (cfg : Config) (agents : List Agent) (now : ℤ) (wss : List Workspace)
    → keep_if (due cfg agents now []) wss ≡ wss
unfolding due lookup
all_due cfg agents now [] = refl
all_due cfg agents now (ws ∷ wss) = ap (λ l. ws ∷ l) (all_due cfg agents now wss)

-- With a reporter that logs its calls and fails for given workspaces, and if the workspaces of the
-- snapshot have different ids, the pass after an invalidation calls the reporter once for
-- every workspace, whatever the snapshot says that the server holds.
pub reconcile-invalidate :
    {E : Type 0} (fails : String → Option E) (c : Controller) (snap : Snapshot) (now : ℤ)
    (log : List Call)
    → Distinct (map (λ (ws : Workspace). ws.workspace_id) snap.workspaces)
    → (reconcile (scripted fails) (invalidate c) snap now log).2
      ≡ log ++ map (call_of fails c.cfg snap.agents now) snap.workspaces
reconcile-invalidate fails c snap now log u =
    (reconcile-IsPass fails (invalidate c) snap now log u).log
    ∙ rw (all_due c.cfg snap.agents now snap.workspaces)
