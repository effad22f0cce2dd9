-- ===== src/Dict/Loops.antt =====
-- What a loop over a map appends, whatever the order in which the map is walked.
use mathlib.Core.List.Memᴰ
use mathlib.Core.List.{Memᴰ}
use herdr_tokens.Prelude.{
  String, eq_iff, eq_refl, some, List, [], ◌∷◌, ◌++◌, ◌≡◌, ◌↔◌, ◌⊎◌, inl, inr, refl, arith,
  Bool-cases, ◌==◌, subst,
}
use herdr_tokens.Dict.{Dict, lookup, each, HasDistinctKeys}
use herdr_tokens.Dict.Laws.{lookup-absent}

module _ {ℓ} {W : Type ℓ} where
  mem-append_left : {x : W} (s t : List W) → Memᴰ x s → Memᴰ x (s ++ t)
  mem-append_left [] t h = elim h [ ]
  mem-append_left (y ∷ s) t (Memᴰ.head e) = Memᴰ.head e
  mem-append_left (y ∷ s) t (Memᴰ.tail h) = Memᴰ.tail (mem-append_left s t h)

  mem-append_right : {x : W} (s t : List W) → Memᴰ x t → Memᴰ x (s ++ t)
  mem-append_right [] t h = h
  mem-append_right (y ∷ s) t h = Memᴰ.tail (mem-append_right s t h)

  mem-append_cases : {x : W} (s t : List W) → Memᴰ x (s ++ t) → Memᴰ x s ⊎ Memᴰ x t
  mem-append_cases [] t h = inr h
  mem-append_cases (y ∷ s) t (Memᴰ.head e) = inl (Memᴰ.head e)
  mem-append_cases (y ∷ s) t (Memᴰ.tail h) = elim (mem-append_cases s t h) [
    | inl a ↦ inl (Memᴰ.tail a)
    | inr b ↦ inr b
  ]

  -- An element of two lists in a row.
  pub mem-append_iff : {x : W} (s t : List W) → Memᴰ x (s ++ t) ↔ (Memᴰ x s ⊎ Memᴰ x t)
  mem-append_iff s t = (
    mem-append_cases s t,
    λ h. elim h [ inl a ↦ mem-append_left s t a | inr b ↦ mem-append_right s t b ],
  )

  pub append-nil : (s t : List W) → s ++ t ≡ [] → (s ≡ []) × (t ≡ [])
  append-nil [] t h = (refl, h)
  append-nil (x ∷ s) t h = cc

  no_mem-nil : (s : List W) → ((x : W) → Memᴰ x s → ⊥) → s ≡ []
  no_mem-nil [] h = refl
  no_mem-nil (x ∷ s) h = absurd (h x (Memᴰ.head refl))

module _ {ℓ κ} {V : Type ℓ} {W : Type κ} (f : String → V → List W) where
  -- An entry of the map whose round of the loop appends `x`.
  abbrev pub Appends : Dict V → W → Type (ℓ ⊔ κ)
  Appends m x = (k : String) × (v : V) × (lookup k m ≡ some v) × Memᴰ x (f k v)

  mem-each : (m : Dict V) {x : W} → HasDistinctKeys m → Memᴰ x (each f m) → Appends m x
  unfolding each lookup
  mem-each [] d h = elim h [ ]
  mem-each ((k, v) ∷ m) (n, d) h = elim (mem-append_cases (f k v) (each f m) h) [
    | inl a ↦ (k, v, rw (eq_refl k) refl, a)
    | inr b ↦
        let (j, w, e, c) = mem-each m d b in
        (j, w, ground (arith, eq_iff k j, lookup-absent k m n), c)
  ]

  each-mem : (m : Dict V) {x : W} → Appends m x → Memᴰ x (each f m)
  unfolding each lookup
  each-mem [] (k, v, e, h) = cc
  each-mem ((j, w) ∷ m) (k, v, e, h) = elim (Bool-cases (j == k)) [
    | inl same ↦ mem-append_left (f j w) (each f m) (
        let key : k ≡ j = ground (arith, eq_iff j k) in
        let value : v ≡ w = ground arith in rw (key, value) at h)
    | inr other ↦ mem-append_right (f j w) (each f m) (each-mem m (k, v, (ground arith), h))
  ]

  -- A loop appends what some entry's round appends.
  pub mem-each_iff : (m : Dict V) (x : W) → HasDistinctKeys m → Memᴰ x (each f m) ↔ Appends m x
  mem-each_iff m x d = (mem-each m d, each-mem m)

  -- It appends nothing only if no entry's round does.
  pub each-nil :
      (m : Dict V) → each f m ≡ [] → (k : String) (v : V) → lookup k m ≡ some v → f k v ≡ []
  each-nil m h k v e =
      no_mem-nil (f k v) λ x a. Memᴰ.not-nil (subst (Memᴰ x) h (each-mem m (k, v, e, a)))

  -- It appends nothing exactly if no entry's round does.
  pub each-nil_iff :
      (m : Dict V)
      → HasDistinctKeys m
      → (each f m ≡ []) ↔ ((k : String) (v : V) → lookup k m ≡ some v → f k v ≡ [])
  each-nil_iff m d = (
    each-nil m,
    λ h.
        no_mem-nil (each f m)
          λ x a. let (k, v, e, b) = mem-each m d a in Memᴰ.not-nil (subst (Memᴰ x) (h k v e) b),
  )
