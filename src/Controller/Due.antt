-- ===== src/Controller/Due.antt =====
-- Which workspaces a pass of internal/controller/controller.go is to write, described apart from its code.
use herdr_tokens.Prelude.{
  String, ◌==◌, eq_iff, eq_refl, subst, ◌↔◌, inl, inr, Bool-cases, Option-cases, true, false, Bool,
  not, ◌&&◌, Option, none, some, List, [], ◌∷◌, ◌≡◌, refl, sym, any, arith,
}
use herdr_tokens.Prelude.Int.{ℤ, ltb_ℤ, sub_time, quot}
use herdr_tokens.Dict.{Dict, lookup}
use herdr_tokens.Config.{Config, heartbeat_age}
use herdr_tokens.Wire.{Workspace, Agent}
use herdr_tokens.Derive.{all_tokens, desired}
use herdr_tokens.Derive.Tokens.{is_owned, wanted}
use herdr_tokens.Controller.Matching.{observed_matches_desired-Shows}
use herdr_tokens.Controller.{skips, observed_matches_desired}

abbrev same_token : Option String → Option String → Bool
same_token none none = true
same_token none (some t) = false
same_token (some s) none = false
same_token (some s) (some t) = s == t

same_token_iff : (x y : Option String) → (same_token x y ≡ true) ↔ (x ≡ y)
same_token_iff none none = ground arith
same_token_iff none (some t) = ground arith
same_token_iff (some s) none = ground arith
same_token_iff (some s) (some t) = ground (arith, eq_iff s t)

abbrev every {ℓ} : {A : Type ℓ} → (A → Bool) → List A → Bool
every p [] = true
every p (x ∷ xs) = p x && every p xs

same_truth : (a b : Bool) → (a ≡ true) ↔ (b ≡ true) → a ≡ b
same_truth true b (to, from) = sym (to refl)
same_truth false true (to, from) = from refl
same_truth false false h = refl

every_iff :
    (p : String → Bool) (ks : List String)
    → (every p ks ≡ true) ↔ ((k : String) → any (λ j. j == k) ks ≡ true → p k ≡ true)
every_iff p [] = ((λ _ k h. absurd (ground arith)), λ _. refl)
every_iff p (j ∷ ks) =
    let (to, from) = every_iff p ks in
    (
      λ h k there. elim (Bool-cases (j == k)) [
        | inl here ↦ subst (λ k. p k ≡ true) ((eq_iff j k).0 here) (ground arith)
        | inr later ↦ to (ground arith) k (ground arith)
      ],
      λ h.
          let first = h j (rw (eq_refl j) refl) in
          let rest = from (λ k there. h k (ground arith)) in ground arith,
    )

module _ (cfg : Config) (agents : List Agent) (now : ℤ) where
  -- The snapshot shows of each owned key what is wanted of it.
  unfoldable as_wanted : Workspace → Bool
  as_wanted ws =
      every (λ k. same_token (lookup k ws.tokens) (wanted ws agents cfg.value k)) all_tokens

  -- The last write is younger than a third of the TTL.
  abbrev still_fresh : Option ℤ → Bool
  still_fresh none = false
  still_fresh (some at) = ltb_ℤ (sub_time now at) (quot cfg.ttl 3)

  -- By the records at the start of the pass, the workspace is to be written: no write is recorded, or
  -- the last one is too old, or the snapshot does not show what is wanted.
  unfoldable pub due : Dict ℤ → Workspace → Bool
  unfolding as_wanted
  due d ws = not (still_fresh (lookup ws.workspace_id d) && as_wanted ws)

  pub due_at :
      (d last : Dict ℤ) (ws : Workspace)
      → lookup ws.workspace_id last ≡ lookup ws.workspace_id d
      → due last ws ≡ due d ws
  unfolding due
  due_at d last ws e = rw e refl

  as_wanted-matches :
      (ws : Workspace)
      → as_wanted ws ≡ observed_matches_desired ws.tokens (desired ws agents cfg.value)
  unfolding as_wanted is_owned
  as_wanted-matches ws =
      let (to, from) =
        every_iff (λ k. same_token (lookup k ws.tokens) (wanted ws agents cfg.value k))
          all_tokens in
      let (shows, matches) = observed_matches_desired-Shows ws agents cfg.value ws.tokens in
      same_truth _ _ (
        λ h. matches (λ k owned. (same_token_iff _ _).0 (to h k owned)),
        λ h. from (λ k owned. (same_token_iff _ _).1 (shows h k owned)),
      )

  pub skips-due :
      (d : Dict ℤ) (ws : Workspace)
      → skips cfg
          (lookup ws.workspace_id d)
          (observed_matches_desired ws.tokens (desired ws agents cfg.value))
          now
        ≡ not (due d ws)
  unfolding skips due heartbeat_age
  skips-due d ws =
      let same = as_wanted-matches ws in
      elim (Option-cases (lookup ws.workspace_id d)) [
        | inl unknown ↦ rw unknown refl
        | inr (at, known) ↦ rw known (ground (arith, same))
      ]
