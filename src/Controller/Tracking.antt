-- ===== src/Controller/Tracking.antt =====
-- Which workspaces the controller remembers after a pass, and that a pass that may skip nothing
-- skips nothing.
use herdr_tokens.Prelude.{
  String, ◌==◌, Bool, true, ◌||◌, List, [], ◌∷◌, ◌≡◌, ◌⊎◌, refl, ◌∙◌, any, All, All-map, arith, inl,
  inr,
}
use herdr_tokens.Prelude.Int.{ℤ}
use herdr_tokens.Dict.{insert, keys, HasDistinctKeys}
use herdr_tokens.Dict.Laws.{HasDistinctKeys-insert, HasDistinctKeys-retain, retain-All}
use herdr_tokens.Config.{Config}
use herdr_tokens.Wire.{Workspace, Agent, Snapshot}
use herdr_tokens.Controller.{
  Reporter, Controller, Progress, visit, visit_all, start, prune, reconcile,
}

-- The snapshot has a workspace with this id.
abbrev pub has_workspace : List Workspace → String → Bool
has_workspace wss id = any (λ ws. ws.workspace_id == id) wss

module _ {World E : Type 0} (rep : Reporter World E) (cfg : Config) (agents : List Agent)
    (now : ℤ) where
  visit-seen :
      (ws : Workspace) (p : Progress World E)
      → (visit rep cfg agents now ws p).seen ≡ ws.workspace_id ∷ p.seen
  unfolding visit
  visit-seen ws p = ground arith

  pub visit_all-seen :
      (wss : List Workspace) (p : Progress World E) (id : String)
      → any (λ j. j == id) (visit_all rep cfg agents now wss p).seen
        ≡ (has_workspace wss id || any (λ j. j == id) p.seen)
  unfolding visit_all
  visit_all-seen [] p id = refl
  visit_all-seen (ws ∷ rest) p id =
      visit_all-seen rest (visit rep cfg agents now ws p) id ∙ rw (visit-seen ws p) (ground arith)

  -- A round leaves the records alone or records one write.
  pub visit-last :
      (ws : Workspace) (p : Progress World E)
      → ((visit rep cfg agents now ws p).last ≡ p.last)
        ⊎ ((visit rep cfg agents now ws p).last ≡ insert ws.workspace_id now p.last)
  unfolding visit
  visit-last ws p = ground arith

  visit-HasDistinctKeys :
      (ws : Workspace) (p : Progress World E)
      → HasDistinctKeys p.last
      → HasDistinctKeys (visit rep cfg agents now ws p).last
  visit-HasDistinctKeys ws p h = elim (visit-last ws p) [
    | inl same ↦ rw same h
    | inr put ↦ rw put (HasDistinctKeys-insert ws.workspace_id now p.last h)
  ]

  visit_all-HasDistinctKeys :
      (wss : List Workspace) (p : Progress World E)
      → HasDistinctKeys p.last
      → HasDistinctKeys (visit_all rep cfg agents now wss p).last
  unfolding visit_all
  visit_all-HasDistinctKeys [] p h = h
  visit_all-HasDistinctKeys (ws ∷ rest) p h =
      visit_all-HasDistinctKeys rest _ (visit-HasDistinctKeys ws p h)

-- The state of a controller: each workspace is recorded once.
pub record IsTracking (c : Controller) (wss : List Workspace) : Type 0 where
  pub distinct : HasDistinctKeys c.last
  pub listed : All (λ id. has_workspace wss id ≡ true) (keys c.last)

-- After a pass, whatever the reporter answers, the records are of workspaces of the snapshot, one for
-- each of them at most.
pub reconcile-IsTracking :
    {World E : Type 0} (rep : Reporter World E) (c : Controller) (snap : Snapshot) (now : ℤ)
    (w : World)
    → HasDistinctKeys c.last
    → IsTracking (reconcile rep c snap now w).1 snap.workspaces
unfolding reconcile
reconcile-IsTracking rep c snap now w h =
    let p = visit_all rep c.cfg snap.agents now snap.workspaces (start c w) in
    let seen = visit_all-seen rep c.cfg snap.agents now snap.workspaces (start c w) in
    record {
      distinct =
          HasDistinctKeys-retain _ p.last
            (visit_all-HasDistinctKeys rep c.cfg snap.agents now snap.workspaces (start c w) h);
      listed = All-map (keys (prune p)) (λ id kept. ground (arith, seen id)) (retain-All _ p.last);
    }
