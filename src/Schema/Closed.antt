-- ===== src/Schema/Closed.antt =====
-- When the check of an object finds nothing to report.
use herdr_tokens.Prelude.{
  String, true, Option, none, some, [], ◌≡◌, ◌↔◌, refl, Bool-cases, inl, inr, arith,
}
use herdr_tokens.Dict.{Dict, lookup, HasDistinctKeys}
use herdr_tokens.Dict.Loops.{each-nil_iff, append-nil}
use herdr_tokens.Json.{Json}
use herdr_tokens.Schema.{
  FieldSpec, ObjectSchema, child, check_field, require, check_present, check_required,
  validate_object,
}

-- The fields are those that the schema names, each with a value that its rule takes, and the
-- required ones are there.
pub record Fits (path : String) (m : Dict Json) (schema : ObjectSchema) : Type 0 where
  pub closed :
      (k : String) (v : Json)
      → lookup k m ≡ some v
      → (spec : FieldSpec) × (lookup k schema ≡ some spec) × (spec.check (child path k) v ≡ [])
  pub complete :
      (name : String) (spec : FieldSpec)
      → lookup name schema ≡ some spec
      → spec.required ≡ true
      → (v : Json) × (lookup name m ≡ some v)

check_field-nil_iff :
    (path k : String) (v : Json) (found : Option FieldSpec)
    → (check_field path k v found ≡ [])
      ↔ ((spec : FieldSpec) × (found ≡ some spec) × (spec.check (child path k) v ≡ []))
check_field-nil_iff path k v none = ((λ h. cc), λ (spec, h, _). cc)
check_field-nil_iff path k v (some spec) =
    ((λ h. (spec, refl, h)), λ (spec', e, h). let same : spec ≡ spec' = cc in rw same h)

require-nil_iff :
    (path name : String) (spec : FieldSpec) (found : Option Json)
    → (require path name spec found ≡ []) ↔ (spec.required ≡ true → (v : Json) × (found ≡ some v))
require-nil_iff path name spec (some v) = ((λ h r. (v, refl)), λ h. ground arith)
require-nil_iff path name spec none = elim (Bool-cases spec.required) [
  | inl r ↦ rw r ((λ h _. cc), λ h. let (v, e) = h refl in cc)
  | inr o ↦ rw o ((λ h e. cc), λ h. refl)
]

-- The check of an object reports nothing exactly if every field is named by the schema and taken by
-- its rule and every required field is there, for an object and a schema without a repeated key.
pub validate_object-nil_iff :
    (path : String) (m : Dict Json) (schema : ObjectSchema)
    → HasDistinctKeys m
    → HasDistinctKeys schema
    → (validate_object path m schema ≡ []) ↔ Fits path m schema
unfolding validate_object check_present check_required
validate_object-nil_iff path m schema dm ds =
    let (present_to, present_from) =
      each-nil_iff (λ k v. check_field path k v (lookup k schema)) m dm in
    let (required_to, required_from) =
      each-nil_iff (λ name spec. require path name spec (lookup name m)) schema ds in
    (
      λ h.
          let (p, r) = append-nil (check_present path schema m) (check_required path m schema) h in
          record {
            closed =
                λ k v e. (check_field-nil_iff path k v (lookup k schema)).0 (present_to p k v e);
            complete = λ name spec e.
                (require-nil_iff path name spec (lookup name m)).0 (required_to r name spec e);
          },
      λ fits.
          let p : check_present path schema m ≡ [] =
            present_from
              λ k v e. (check_field-nil_iff path k v (lookup k schema)).1 (fits.closed k v e) in
          let r : check_required path m schema ≡ [] = required_from λ name spec e.
            (require-nil_iff path name spec (lookup name m)).1 (fits.complete name spec e) in
          rw p r,
    )
