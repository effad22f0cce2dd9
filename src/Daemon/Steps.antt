-- ===== src/Daemon/Steps.antt =====
-- How the rounds unfold while the context lasts.
use herdr_tokens.Prelude.{false, List, [], ◌∷◌, ◌++◌, ◌≡◌, refl, ◌∙◌, All}
use herdr_tokens.Prelude.Int.{ℤ}
use herdr_tokens.Controller.{Reporter}
use herdr_tokens.Daemon.{Loop, Turn, attempted, round, rounds}

-- No turn is the last.
abbrev pub GoesOn : List Turn → Type 0
GoesOn = All (λ turn. turn.stopped ≡ false)

module _ {World E : Type 0} (rep : Reporter World E) (base most : ℤ) where
  pub rounds-cons :
      (turn : Turn) (turns : List Turn) (s : Loop World)
      → turn.stopped ≡ false
      → rounds rep base most (turn ∷ turns) s
        ≡ rounds rep base most turns (attempted rep base most turn.attempt false s)
  unfolding rounds round
  rounds-cons turn turns s on = rw on

  pub rounds-append :
      (xs ys : List Turn) (s : Loop World)
      → GoesOn xs
      → rounds rep base most (xs ++ ys) s ≡ rounds rep base most ys (rounds rep base most xs s).1
  rounds-append [] ys s on = unfold rounds in refl
  rounds-append (x ∷ xs) ys s (here, on) =
      rounds-cons x (xs ++ ys) s here
      ∙ rounds-append xs ys (attempted rep base most x.attempt false s) on
      ∙ rw (rounds-cons x xs s here)
