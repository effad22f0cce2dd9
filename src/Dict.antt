-- ===== src/Dict.antt =====
-- Go's `map[string]V`, as a list of entries with one entry for each key. The order of the entries
-- stands for an iteration order; what is proved of the program does not depend on it.
pub mod Laws
pub mod Loops
use herdr_tokens.Prelude.{
  String, ◌==◌, Bool, Option, none, some, List, [], ◌∷◌, ◌++◌, map, if◌then◌else◌, ◌≢◌, All,
}

abbrev pub Dict {ℓ} : Type ℓ → Type ℓ
Dict V = List (String × V)

-- No text stands twice in the list.
abbrev pub Distinct : List String → Type 0
Distinct [] = Unit
Distinct (k ∷ ks) = All (λ j. j ≢ k) ks × Distinct ks

module _ {ℓ} {V : Type ℓ} where
  -- `v, ok := m[k]`
  unfoldable pub lookup : String → Dict V → Option V
  lookup key [] = none
  lookup key ((k, v) ∷ rest) = if k == key then some v else lookup key rest

  -- `m[k] = v`
  unfoldable pub insert : String → V → Dict V → Dict V
  insert k v [] = (k, v) ∷ []
  insert k v ((j, w) ∷ m) = if j == k then (j, v) ∷ m else (j, w) ∷ insert k v m

  -- `for k := range m { if !keep(k) { delete(m, k) } }`
  unfoldable pub retain : (String → Bool) → Dict V → Dict V
  retain keep [] = []
  retain keep ((j, v) ∷ m) = if keep j then (j, v) ∷ retain keep m else retain keep m

  abbrev pub keys : Dict V → List String
  keys [] = []
  keys ((j, v) ∷ m) = j ∷ keys m

  abbrev pub HasDistinctKeys : Dict V → Type 0
  HasDistinctKeys m = Distinct (keys m)

-- `for k, v := range m { out = append(out, f(k, v)...) }`, as what it appends
unfoldable pub each {ℓ κ} : {V : Type ℓ} {W : Type κ} → (String → V → List W) → Dict V → List W
each f [] = []
each f ((k, v) ∷ m) = f k v ++ each f m
