-- ===== src/SchemaCheck/ExitCodes.antt =====
-- What the exit code of schema-check says of the files.
use herdr_tokens.Prelude.{
  ℕ, String, Bool, true, false, ◌||◌, List, [], ◌∷◌, ◌≡◌, ◌⊎◌, inl, inr, refl, ◌∙◌, arith, any,
  if◌then◌else◌,
}
use herdr_tokens.Prelude.Result.{Result, ok, err}
use herdr_tokens.Json.Any.{AnyError}
use herdr_tokens.Schema.{Violation}
use herdr_tokens.Schema.Tables.{validate_fixture}
use herdr_tokens.SchemaCheck.{Report, unreadable, unparsable, check_file, check_files, check_main}

-- The exit code by what the files are: 2 if one cannot be read or parsed, else 1 if one has a
-- violation.
abbrev pub code_of : Bool → Bool → ℕ
code_of unusable dirty = if unusable then 2 else if dirty then 1 else 0

Result-cases {ℓ κ} :
    {E : Type ℓ} {A : Type κ} (r : Result E A) → ((e : E) × (r ≡ err e)) ⊎ ((x : A) × (r ≡ ok x))
Result-cases (err e) = inl (e, refl)
Result-cases (ok x) = inr (x, refl)

abbrev not_parsed : Result AnyError (List Violation) → Bool
not_parsed (err e) = true
not_parsed (ok vs) = false

abbrev not_read : Result String String → Bool
not_read (err e) = true
not_read (ok contents) = not_parsed (validate_fixture contents)

abbrev parsed_dirty : Result AnyError (List Violation) → Bool
parsed_dirty (err e) = false
parsed_dirty (ok []) = false
parsed_dirty (ok (v ∷ vs)) = true

abbrev read_dirty : Result String String → Bool
read_dirty (err e) = false
read_dirty (ok contents) = parsed_dirty (validate_fixture contents)

module _ (read_file : String → Result String String) where
  -- The file cannot be read, or its contents are no JSON that ValidateFixture accepts.
  abbrev pub unusable : String → Bool
  unusable path = not_read (read_file path)

  -- The file can be used, and ValidateFixture finds something.
  abbrev pub dirty : String → Bool
  dirty path = read_dirty (read_file path)

  -- What is said of a file, and what `check_file` gives.
  data Judged (path : String) : Type 0 where
    bad :
        (line : Report) → unusable path ≡ true → check_file read_file path ≡ err line → Judged path
    good :
        (vs : List Violation)
        → unusable path ≡ false
        → dirty path ≡ parsed_dirty (ok vs)
        → check_file read_file path ≡ ok vs
        → Judged path

  judged : (path : String) → Judged path
  unfolding check_file
  judged path = elim (Result-cases (read_file path)) [
    | inl (e, r) ↦ bad (unreadable path e) (rw (unusable, r) refl) (rw (check_file, r) refl)
    | inr (contents, r) ↦ elim (Result-cases (validate_fixture contents)) [
      | inl (e, v) ↦
          bad (unparsable path e) (rw (unusable, r) (rw v refl)) (rw (check_file, r) (rw v refl))
      | inr (vs, v) ↦
          good vs (rw (unusable, r) (rw v refl)) (rw (dirty, r) (rw v refl))
            (rw (check_file, r) (rw v refl))
    ]
  ]

  or_true : (b : Bool) → (b || true) ≡ true
  or_true b = ground arith

  check_files-code :
      (seen : Bool) (paths : List String)
      → (check_files read_file seen paths).0
        ≡ code_of (any unusable paths) (seen || any dirty paths)
  unfolding check_files
  check_files-code seen [] = ground arith
  check_files-code seen (path ∷ paths) = elim (judged path) [
    | bad line u e ↦ rw (e, u, check_files) refl
    | good [] u d e ↦ rw (e, u, d, check_files) (check_files-code seen paths)
    | good (v ∷ vs) u d e ↦ rw (e, u, d, check_files) (check_files-code true paths ∙ ground arith)
  ]

-- schema-check exits with 2 if it has no argument or one of the files cannot be read or parsed,
-- else with 1 if one of them has a violation, and with 0 exactly if every file is clean.
pub check_main-code :
    (read_file : String → Result String String) (path : String) (paths : List String)
    → ((check_main read_file []).0 ≡ 2)
      × ((check_main read_file (path ∷ paths)).0
          ≡ code_of
              (any (unusable read_file) (path ∷ paths))
              (any (dirty read_file) (path ∷ paths)))
unfolding check_main
check_main-code read_file path paths = (refl, check_files-code read_file false (path ∷ paths))
