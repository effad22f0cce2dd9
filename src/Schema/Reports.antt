-- ===== src/Schema/Reports.antt =====
-- Which violations the check of an object reports, whatever the order in which Go walks its maps.
use mathlib.Core.List.Memᴰ
use mathlib.Core.List.{Memᴰ}
use herdr_tokens.Prelude.{
  String, true, none, some, List, [], ◌∷◌, ◌≡◌, ◌↔◌, inl, inr, Option-cases, Bool-cases,
}
use herdr_tokens.Dict.{Dict, lookup, each, HasDistinctKeys}
use herdr_tokens.Dict.Loops.{mem-append_iff, mem-each_iff, Appends}
use herdr_tokens.Json.{Json}
use herdr_tokens.Schema.{
  Violation, FieldSpec, ObjectSchema, unknown_field, missing_field, child, check_field, require,
  check_present, check_required, validate_object,
}

-- A field that the schema does not name, a violation of a field's rule, a required field that is
-- missing.
pub data Reported (path : String) (m : Dict Json) (schema : ObjectSchema) (x : Violation)
    : Type 0 where
  unknown :
      (k : String) (v : Json)
      → lookup k m ≡ some v
      → lookup k schema ≡ none
      → x ≡ record { path = child path k; reason = unknown_field }
      → Reported path m schema x
  within :
      (k : String) (v : Json) (spec : FieldSpec)
      → lookup k m ≡ some v
      → lookup k schema ≡ some spec
      → Memᴰ x (spec.check (child path k) v)
      → Reported path m schema x
  missing :
      (name : String) (spec : FieldSpec)
      → lookup name schema ≡ some spec
      → spec.required ≡ true
      → lookup name m ≡ none
      → x ≡ record { path = child path name; reason = missing_field }
      → Reported path m schema x

module _ (path : String) (m : Dict Json) (schema : ObjectSchema) (x : Violation) where
  abbrev by_field : String → Json → List Violation
  by_field k v = check_field path k v (lookup k schema)

  abbrev by_rule : String → FieldSpec → List Violation
  by_rule name spec = require path name spec (lookup name m)

  mem-singleton : (y : Violation) → Memᴰ x (y ∷ []) → x ≡ y
  mem-singleton y (Memᴰ.head e) = e
  mem-singleton y (Memᴰ.tail h) = elim h [ ]

  field-Reported : Appends by_field m x → Reported path m schema x
  field-Reported (k, v, e, h) = elim (Option-cases (lookup k schema)) [
    | inl n ↦ unknown k v e n (mem-singleton _ (rw n at h))
    | inr (spec, s) ↦ within k v spec e s (rw s at h)
  ]

  rule-Reported : Appends by_rule schema x → Reported path m schema x
  rule-Reported (name, spec, e, h) = elim (Option-cases (lookup name m)) [
    | inl n ↦ elim (Bool-cases spec.required) [
      | inl r ↦ missing name spec e r n (mem-singleton _ (rw (n, r) at h))
      | inr o ↦ absurd (Memᴰ.not-nil (rw (n, o) at h))
    ]
    | inr (v, s) ↦ elim (Bool-cases spec.required) [
      | inl r ↦ absurd (Memᴰ.not-nil (rw (s, r) at h))
      | inr o ↦ absurd (Memᴰ.not-nil (rw (s, o) at h))
    ]
  ]

  reported :
      HasDistinctKeys m
      → HasDistinctKeys schema
      → Memᴰ x (validate_object path m schema)
      → Reported path m schema x
  unfolding validate_object check_present check_required
  reported dm ds h = elim ((mem-append_iff (each by_field m) (each by_rule schema)).0 h) [
    | inl a ↦ field-Reported ((mem-each_iff by_field m x dm).0 a)
    | inr b ↦ rule-Reported ((mem-each_iff by_rule schema x ds).0 b)
  ]

  of_field : HasDistinctKeys m → Appends by_field m x → Memᴰ x (validate_object path m schema)
  unfolding validate_object check_present check_required
  of_field dm a =
      (mem-append_iff (each by_field m) (each by_rule schema)).1
        (inl ((mem-each_iff by_field m x dm).1 a))

  of_rule :
      HasDistinctKeys schema → Appends by_rule schema x → Memᴰ x (validate_object path m schema)
  unfolding validate_object check_present check_required
  of_rule ds a =
      (mem-append_iff (each by_field m) (each by_rule schema)).1
        (inr ((mem-each_iff by_rule schema x ds).1 a))

  reports :
      HasDistinctKeys m
      → HasDistinctKeys schema
      → Reported path m schema x
      → Memᴰ x (validate_object path m schema)
  reports dm ds (unknown k v e n same) = of_field dm (k, v, e, rw n (Memᴰ.head same))
  reports dm ds (within k v spec e s h) = of_field dm (k, v, e, rw s h)
  reports dm ds (missing name spec e r n same) =
      of_rule ds (name, spec, e, rw (n, r) (Memᴰ.head same))

-- The check of an object reports exactly this: each field that the schema does not name, what the
-- rule of each field that it names reports, and each required field that is missing; for an object
-- and a schema without a repeated key, whatever the order of their entries.
pub mem-validate_object_iff :
    (path : String) (m : Dict Json) (schema : ObjectSchema) (x : Violation)
    → HasDistinctKeys m
    → HasDistinctKeys schema
    → Memᴰ x (validate_object path m schema) ↔ Reported path m schema x
mem-validate_object_iff path m schema x dm ds =
    (reported path m schema x dm ds, reports path m schema x dm ds)
