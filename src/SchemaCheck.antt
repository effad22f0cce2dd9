-- ===== src/SchemaCheck.antt =====
-- cmd/schema-check/main.go: the check of files against the fixture schema, with its exit codes. The
-- contents of a file, or why it cannot be read, is an argument.
pub mod ExitCodes
pub mod Samples
use herdr_tokens.Prelude.{
  String, Bool, true, false, ◌||◌, not, List, [], ◌∷◌, ◌++◌, ℕ, if◌then◌else◌,
}
use herdr_tokens.Prelude.Result.{Result, ok, err}
use herdr_tokens.Json.Any.{AnyError}
use herdr_tokens.Schema.{Violation}
use herdr_tokens.Schema.Tables.{validate_fixture}

-- A line on the standard error.
pub data Report : Type 0 where
  usage : Report
  unreadable : String → String → Report
  unparsable : String → AnyError → Report
  violation : String → Violation → Report

-- The exit code, after the lines.
abbrev pub Verdict : Type 0
Verdict = ℕ × List Report

abbrev pub lines_of : String → List Violation → List Report
lines_of path [] = []
lines_of path (v ∷ vs) = violation path v ∷ lines_of path vs

-- `sawViolation` after a file with these violations
abbrev pub saw : Bool → List Violation → Bool
saw seen [] = seen
saw seen (v ∷ vs) = true

abbrev pub before_rest : List Report → Verdict → Verdict
before_rest lines (code, rest) = (code, lines ++ rest)

module _ (read_file : String → Result String String) where
  -- What a file gives: violations, or why there are none to give.
  unfoldable pub check_file : String → Result Report (List Violation)
  unfolding validate_fixture
  check_file path = elim (read_file path) [
    | err e ↦ err (unreadable path e)
    | ok contents ↦ elim (validate_fixture contents) [
      | err e ↦ err (unparsable path e)
      | ok vs ↦ ok vs
    ]
  ]

  -- The loop over the arguments; `seen` is `sawViolation`.
  unfoldable pub check_files : Bool → List String → Verdict
  check_files seen [] = (if seen then 1 else 0, [])
  check_files seen (path ∷ paths) = elim (check_file path) [
    | err line ↦ (2, line ∷ [])
    | ok vs ↦ before_rest (lines_of path vs) (check_files (saw seen vs) paths)
  ]

  unfoldable pub check_main : List String → Verdict
  unfolding check_files
  check_main [] = (2, usage ∷ [])
  check_main (path ∷ paths) = check_files false (path ∷ paths)
