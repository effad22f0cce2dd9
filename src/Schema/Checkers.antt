-- ===== src/Schema/Checkers.antt =====
-- What each kind of checker accepts, and that a document without violations is accepted at every
-- depth.
use mathlib.Core.List.{Memᴰ}
use herdr_tokens.Prelude.{
  ℕ, suc, String, codes, Bool, true, false, some, List, [], ◌∷◌, ◌≡◌, ◌↔◌, ◌⊎◌, inl, inr, refl,
  arith, Option-cases, ◌≢◌,
}
use herdr_tokens.Dict.{lookup}
use herdr_tokens.Dict.Loops.{each-nil, append-nil}
use herdr_tokens.Json.{
  Json, null, bool, number, text, array, object, elements, entries, Fields, Items,
}
use herdr_tokens.Regexp.{Regex}
use herdr_tokens.Regexp.Language.{Matches, matches_iff}
use herdr_tokens.Schema.{
  Reason, Checker, FieldSpec, ObjectSchema, addf, add_unless, check_field, check_present,
  validate_object, pattern, enum_string, nullable_enum_string, one_of, object_of, array_of_objects,
  check_elements, element,
}

add_unless_iff : (b : Bool) (path : String) (r : Reason) → (add_unless b path r ≡ []) ↔ (b ≡ true)
add_unless_iff true path r = ((λ _. refl), λ _. refl)
add_unless_iff false path r = ((λ h. cc), λ h. cc)

-- A text that a test passes.
abbrev pub IsText : (String → Type 0) → Json → Type 0
IsText P v = (s : String) × (v ≡ text s) × P s

-- A pattern rule reports nothing exactly of a text in the expression's language.
pub pattern_iff :
    (kind : String) (re : Regex) (path : String) (v : Json)
    → (pattern kind re path v ≡ []) ↔ IsText (λ s. Matches re (codes s)) v
unfolding pattern
pattern_iff kind re path (text s) = (
  λ h. (s, refl, (matches_iff re (codes s)).0 ((add_unless_iff _ path _).0 h)),
  λ (t, e, m).
      let same : s ≡ t = cc in
      (add_unless_iff _ path _).1 ((matches_iff re (codes s)).1 (rw same m)),
)
pattern_iff kind re path null = ((λ h. cc), λ h. cc (h.1))
pattern_iff kind re path (bool b) = ((λ h. cc), λ h. cc (h.1))
pattern_iff kind re path (number n) = ((λ h. cc), λ h. cc (h.1))
pattern_iff kind re path (array _) = ((λ h. cc), λ h. cc (h.1))
pattern_iff kind re path (object _) = ((λ h. cc), λ h. cc (h.1))

-- An enum rule reports nothing exactly of one of the allowed texts.
pub enum_string_iff :
    (kind : String) (allowed : List String) (path : String) (v : Json)
    → (enum_string kind allowed path v ≡ []) ↔ IsText (λ s. one_of allowed s ≡ true) v
unfolding enum_string
enum_string_iff kind allowed path v = ground (arith)

-- A nullable enum rule takes null as well.
pub nullable_enum_string_iff :
    (kind : String) (allowed : List String) (path : String) (v : Json)
    → (nullable_enum_string kind allowed path v ≡ [])
      ↔ ((v ≡ null) ⊎ IsText (λ s. one_of allowed s ≡ true) v)
unfolding nullable_enum_string enum_string
nullable_enum_string_iff kind allowed path v = ground arith

-- `c` reports nothing of `v`, at some place.
abbrev pub Accepts : Checker → Json → Type 0
Accepts c v = (path : String) × (c path v ≡ [])

-- The rule `d` applies to the value `w` when `c` is applied to `v`: for the value itself, or below a
-- field that is there and that the schema names, or below an element of an array.
pub data Governs (d : Checker) (w : Json) : Checker → Json → Type 1 where
  here : Governs d w d w
  below :
      (schema : ObjectSchema) (m : Fields) (k : String) (v : Json) (spec : FieldSpec)
      → lookup k (entries m) ≡ some v
      → lookup k schema ≡ some spec
      → Governs d w spec.check v
      → Governs d w (object_of schema) (object m)
  inside :
      (schema : ObjectSchema) (items : Items) (v : Json)
      → Memᴰ v (elements items)
      → Governs d w (object_of schema) v
      → Governs d w (array_of_objects schema) (array items)

Accepts-field :
    (schema : ObjectSchema) (m : Fields) (k : String) (v : Json)
    → Accepts (object_of schema) (object m)
    → lookup k (entries m) ≡ some v
    → (path : String) × (check_field path k v (lookup k schema) ≡ [])
unfolding object_of validate_object check_present
Accepts-field schema m k v (path, h) e = (
  path,
  each-nil (λ j u. check_field path j u (lookup j schema)) (entries m)
      (append-nil (check_present path schema (entries m)) _ h).0 k v e,
)

addf-ne-nil : {path : String} {r : Reason} → addf path r ≢ []
addf-ne-nil h = cc

-- A field of an accepted object is named by the schema.
pub Accepts-named :
    (schema : ObjectSchema) (m : Fields) (k : String) (v : Json)
    → Accepts (object_of schema) (object m)
    → lookup k (entries m) ≡ some v
    → (spec : FieldSpec) × (lookup k schema ≡ some spec) × Accepts spec.check v
Accepts-named schema m k v a e =
    let (path, h) = Accepts-field schema m k v a e in
    elim (Option-cases (lookup k schema)) [
      | inl n ↦ absurd (addf-ne-nil (rw n at h))
      | inr (spec, s) ↦ (spec, s, (_, rw s at h))
    ]

Accepts-element :
    (schema : ObjectSchema) (path : String) (i : ℕ) (vs : List Json) (v : Json)
    → check_elements schema path i vs ≡ []
    → Memᴰ v vs
    → Accepts (object_of schema) v
unfolding check_elements
Accepts-element schema path i [] v h e = elim e [ ]
Accepts-element schema path i (u ∷ vs) v h (Memᴰ.head same) =
    (element path i, rw same (append-nil _ (check_elements schema path (suc i) vs) h).0)
Accepts-element schema path i (u ∷ vs) v h (Memᴰ.tail e) =
    Accepts-element schema path (suc i) vs v
      (append-nil _ (check_elements schema path (suc i) vs) h).1 e

Accepts-array :
    (schema : ObjectSchema) (items : Items) (v : Json)
    → Accepts (array_of_objects schema) (array items)
    → Memᴰ v (elements items)
    → Accepts (object_of schema) v
unfolding array_of_objects
Accepts-array schema items v (path, h) e = Accepts-element schema path 0 (elements items) v h e

-- If a rule reports nothing of a value, then neither does any rule that it applies to a value
-- inside it, at any depth.
pub Governs-Accepts :
    (d : Checker) (w : Json) (c : Checker) (v : Json) → Governs d w c v → Accepts c v → Accepts d w
Governs-Accepts d w c v here a = a
Governs-Accepts d w c v (below schema m k u spec e s g) a =
    let (spec', s', b) = Accepts-named schema m k u a e in
    let same : spec' ≡ spec = cc in Governs-Accepts d w spec.check u g (rw same at b)
Governs-Accepts d w c v (inside schema items u e g) a =
    Governs-Accepts d w (object_of schema) u g (Accepts-array schema items u a e)
