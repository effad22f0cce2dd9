-- ===== src/Regexp/Language.antt =====
-- The language of an expression, and that the matcher decides it.
use herdr_tokens.Prelude.{
  ℕ, ◌≤◌, true, ◌&&◌, List, [], ◌∷◌, ◌++◌, ◌≡◌, ◌↔◌, refl, ◌∙◌, ap, leb, arith, Bool-cases, inl,
  inr,
}
use herdr_tokens.Regexp.{Regex, fails, nothing, range, seq, alt, star, nullable, after, matches}

-- The texts that an expression denotes.
pub data Matches : Regex → List ℕ → Type 0 where
  empty : Matches nothing []
  char : {lo hi : ℕ} (c : ℕ) → lo ≤ c → c ≤ hi → Matches (range lo hi) (c ∷ [])
  both :
      {r q : Regex} (s t u : List ℕ) → s ++ t ≡ u → Matches r s → Matches q t → Matches (seq r q) u
  left : {r q : Regex} {s : List ℕ} → Matches r s → Matches (alt r q) s
  right : {r q : Regex} {s : List ℕ} → Matches q s → Matches (alt r q) s
  stop : {r : Regex} → Matches (star r) []
  again :
      {r : Regex} (s t u : List ℕ)
      → s ++ t ≡ u
      → Matches r s
      → Matches (star r) t
      → Matches (star r) u

nullable-Matches : (r : Regex) → nullable r ≡ true → Matches r []
unfolding nullable
nullable-Matches fails h = cc
nullable-Matches nothing h = empty
nullable-Matches (range lo hi) h = cc
nullable-Matches (seq r q) h =
    both [] [] [] refl (nullable-Matches r (ground arith)) (nullable-Matches q (ground arith))
nullable-Matches (alt r q) h = elim (Bool-cases (nullable r)) [
  | inl can ↦ left (nullable-Matches r can)
  | inr cannot ↦ right (nullable-Matches q (ground arith))
]
nullable-Matches (star r) h = stop

append_nil : (s t : List ℕ) → s ++ t ≡ [] → (s ≡ []) × (t ≡ [])
append_nil [] t h = (refl, h)
append_nil (c ∷ s) t h = cc

Matches-nullable : (r : Regex) (s : List ℕ) → s ≡ [] → Matches r s → nullable r ≡ true
unfolding nullable
Matches-nullable fails s e m = elim m [ ]
Matches-nullable nothing s e empty = refl
Matches-nullable (range lo hi) s e (char c l h) = cc
Matches-nullable (seq r q) w e (both s t u j m n) =
    let (a, b) = append_nil s t (j ∙ e) in
    ground (arith, Matches-nullable r s a m, Matches-nullable q t b n)
Matches-nullable (alt r q) s e (left m) = ground (arith, Matches-nullable r s e m)
Matches-nullable (alt r q) s e (right m) = ground (arith, Matches-nullable q s e m)
Matches-nullable (star r) s e m = refl

tail_eq : (c d : ℕ) (s t : List ℕ) → c ∷ s ≡ d ∷ t → (c ≡ d) × (s ≡ t)
tail_eq c d s t h = (cc, cc)

no_match : (s : List ℕ) → Matches fails s → ⊥
no_match s m = elim m [ ]

after_range :
    (c lo hi : ℕ) (s : List ℕ)
    → (leb lo c && leb c hi) ≡ true
    → Matches nothing s
    → Matches (range lo hi) (c ∷ s)
after_range c lo hi s h empty = char c (ground arith) (ground arith)

-- Reading one character.
after-Matches : (c : ℕ) (r : Regex) (s : List ℕ) → Matches (after c r) s → Matches r (c ∷ s)
unfolding after
after-Matches c fails s m = elim m [ ]
after-Matches c nothing s m = elim m [ ]
after-Matches c (range lo hi) s m = elim (Bool-cases (leb lo c && leb c hi)) [
  | inl within ↦ after_range c lo hi s within (rw within at m)
  | inr out ↦ absurd (no_match s (rw out at m))
]
after-Matches c (seq r q) s (left (both a b u e m n)) =
    both (c ∷ a) b (c ∷ s) (ap (λ v. c ∷ v) e) (after-Matches c r a m) n
after-Matches c (seq r q) s (right m) = elim (Bool-cases (nullable r)) [
  | inl can ↦
      both [] (c ∷ s) (c ∷ s) refl (nullable-Matches r can) (after-Matches c q s (rw can at m))
  | inr cannot ↦ absurd (no_match s (rw cannot at m))
]
after-Matches c (alt r q) s (left m) = left (after-Matches c r s m)
after-Matches c (alt r q) s (right m) = right (after-Matches c q s m)
after-Matches c (star r) s (both a b u e m n) =
    again (c ∷ a) b (c ∷ s) (ap (λ v. c ∷ v) e) (after-Matches c r a m) n

Matches-after : (c : ℕ) (r : Regex) (w s : List ℕ) → w ≡ c ∷ s → Matches r w → Matches (after c r) s
unfolding after
Matches-after c fails w s e m = elim m [ ]
Matches-after c nothing w s e empty = cc
Matches-after c (range lo hi) w s e (char d l h) =
    let (same, rest) = tail_eq d c [] s e in
    let within : (leb lo c && leb c hi) ≡ true = ground arith in rw (within, ← rest) empty
Matches-after c (seq r q) w s e (both [] b u j m n) =
    rw (Matches-nullable r [] refl m) (right (Matches-after c q b s (j ∙ e) n))
Matches-after c (seq r q) w s e (both (d ∷ a) b u j m n) =
    let (same, rest) = tail_eq d c (a ++ b) s (j ∙ e) in
    left (both a b s rest (Matches-after c r (d ∷ a) a (ap (λ x. x ∷ a) same) m) n)
Matches-after c (alt r q) w s e (left m) = left (Matches-after c r w s e m)
Matches-after c (alt r q) w s e (right m) = right (Matches-after c q w s e m)
Matches-after c (star r) w s e stop = cc
Matches-after c (star r) w s e (again [] b u j m n) = Matches-after c (star r) b s (j ∙ e) n
Matches-after c (star r) w s e (again (d ∷ a) b u j m n) =
    let (same, rest) = tail_eq d c (a ++ b) s (j ∙ e) in
    both a b s rest (Matches-after c r (d ∷ a) a (ap (λ x. x ∷ a) same) m) n

-- The matcher accepts exactly the texts of the expression's language.
pub matches_iff : (r : Regex) (s : List ℕ) → (matches r s ≡ true) ↔ Matches r s
unfolding matches
matches_iff r [] = (nullable-Matches r, Matches-nullable r [] refl)
matches_iff r (c ∷ s) = (
  λ h. after-Matches c r s ((matches_iff (after c r) s).0 h),
  λ m. (matches_iff (after c r) s).1 (Matches-after c r (c ∷ s) s refl m),
)
