-- ===== src/Dict/Laws.antt =====
-- The laws of `Dict`: what a lookup finds after each operation, and which keys there are.
use herdr_tokens.Prelude.{
  String, ◌==◌, eq_iff, eq_refl, Bool, true, none, some, [], ◌∷◌, ◌≡◌, refl, ◌≢◌, ◌↔◌,
  if◌then◌else◌, All, all, arith, Bool-cases, inl, inr,
}
use herdr_tokens.Dict.{Dict, lookup, insert, retain, keys, HasDistinctKeys}

pub eq_sym : (s t : String) → (s == t) ≡ (t == s)
eq_sym s t = ground (arith, eq_iff s t, eq_iff t s)

module _ {ℓ} {V : Type ℓ} where
  pub lookup-insert :
      (put got : String) (v : V) (m : Dict V)
      → lookup got (insert put v m) ≡ (if put == got then some v else lookup got m)
  unfolding lookup insert
  lookup-insert put got v [] = refl
  lookup-insert put got v ((k, w) ∷ rest) =
      ground (arith, lookup-insert put got v rest, eq_iff k put, eq_iff k got, eq_iff put got)

  pub lookup-retain :
      (keep : String → Bool) (j : String) (m : Dict V)
      → lookup j (retain keep m) ≡ (if keep j then lookup j m else none)
  unfolding lookup retain
  lookup-retain keep j [] = ground arith
  lookup-retain keep j ((i, w) ∷ m) = ground (arith, eq_iff i j, lookup-retain keep j m)

  -- A key that no entry has is not found.
  pub lookup-absent : (k : String) (m : Dict V) → All (λ j. j ≢ k) (keys m) → lookup k m ≡ none
  unfolding lookup
  lookup-absent k [] h = refl
  lookup-absent k ((j, v) ∷ m) (n, h) = ground (arith, eq_iff j k, lookup-absent k m h)

  All-keys-insert {κ} :
      (P : String → Type κ) (k : String) (v : V) (m : Dict V)
      → P k
      → All P (keys m)
      → All P (keys (insert k v m))
  unfolding insert
  All-keys-insert P k v [] p h = (p, tt)
  All-keys-insert P k v ((j, w) ∷ m) p (q, h) = elim (Bool-cases (j == k)) [
    | inl same ↦ rw same (q, h)
    | inr other ↦ rw other (q, All-keys-insert P k v m p h)
  ]

  pub HasDistinctKeys-insert :
      (k : String) (v : V) (m : Dict V) → HasDistinctKeys m → HasDistinctKeys (insert k v m)
  unfolding insert
  HasDistinctKeys-insert k v [] h = (tt, tt)
  HasDistinctKeys-insert k v ((j, w) ∷ m) (n, h) = elim (Bool-cases (j == k)) [
    | inl same ↦ rw same (n, h)
    | inr other ↦ rw other (
      All-keys-insert (λ i. i ≢ j) k v m (ground (arith, eq_iff j k)) n,
      HasDistinctKeys-insert k v m h,
    )
  ]

  All-keys-retain {κ} :
      (P : String → Type κ) (keep : String → Bool) (m : Dict V)
      → All P (keys m)
      → All P (keys (retain keep m))
  unfolding retain
  All-keys-retain P keep [] h = tt
  All-keys-retain P keep ((j, w) ∷ m) (q, h) = elim (Bool-cases (keep j)) [
    | inl kept ↦ rw kept (q, All-keys-retain P keep m h)
    | inr gone ↦ rw gone (All-keys-retain P keep m h)
  ]

  pub HasDistinctKeys-retain :
      (keep : String → Bool) (m : Dict V) → HasDistinctKeys m → HasDistinctKeys (retain keep m)
  unfolding retain
  HasDistinctKeys-retain keep [] h = tt
  HasDistinctKeys-retain keep ((j, w) ∷ m) (n, h) = elim (Bool-cases (keep j)) [
    | inl kept ↦ rw kept (All-keys-retain _ keep m n, HasDistinctKeys-retain keep m h)
    | inr gone ↦ rw gone (HasDistinctKeys-retain keep m h)
  ]

  pub retain-All :
      (keep : String → Bool) (m : Dict V) → All (λ j. keep j ≡ true) (keys (retain keep m))
  unfolding retain
  retain-All keep [] = tt
  retain-All keep ((j, w) ∷ m) = elim (Bool-cases (keep j)) [
    | inl kept ↦ rw kept (kept, retain-All keep m)
    | inr gone ↦ rw gone (retain-All keep m)
  ]

  all-lookup :
      (p : String → V → Bool) (m : Dict V) (k : String) (v : V)
      → all (λ e. p e.0 e.1) m ≡ true
      → lookup k m ≡ some v
      → p k v ≡ true
  unfolding lookup
  all-lookup p [] k v h e = cc
  all-lookup p ((j, w) ∷ m) k v h e = ground (arith, eq_iff j k, all-lookup p m k v)

  lookup-all :
      (p : String → V → Bool) (m : Dict V)
      → HasDistinctKeys m
      → ((k : String) (v : V) → lookup k m ≡ some v → p k v ≡ true)
      → all (λ e. p e.0 e.1) m ≡ true
  unfolding lookup
  lookup-all p [] h f = refl
  lookup-all p ((j, w) ∷ m) (n, h) f =
      let rest =
        lookup-all p m h λ k v e. f k v (ground (arith, eq_iff j k, lookup-absent j m n)) in
      ground (arith, rest, f j w, eq_refl j)

  -- A test of every entry is a test of every key's value.
  pub all-entries_iff :
      (p : String → V → Bool) (m : Dict V)
      → HasDistinctKeys m
      → (all (λ e. p e.0 e.1) m ≡ true)
        ↔ ((k : String) (v : V) → lookup k m ≡ some v → p k v ≡ true)
  all-entries_iff p m h = (λ e k v. all-lookup p m k v e, lookup-all p m h)
