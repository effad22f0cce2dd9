-- ===== src/Order.antt =====
-- Go's order of strings, by their bytes, which is that of the code points, and the order of map keys.
use herdr_tokens.Prelude.{
  ℕ, Bool, true, false, List, [], ◌∷◌, ltb, nat_eq, if◌then◌else◌, ◌≡◌, refl, arith,
}

unfoldable pub before : List ℕ → List ℕ → Bool
before [] t = true
before (c ∷ s) [] = false
before (c ∷ s) (d ∷ t) = let rest = before s t in if nat_eq c d then rest else ltb c d

pub before_refl : (s : List ℕ) → before s s ≡ true
unfolding before
before_refl [] = refl
before_refl (c ∷ s) = ground (arith, before_refl s)
