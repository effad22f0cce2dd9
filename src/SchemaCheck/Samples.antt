-- ===== src/SchemaCheck/Samples.antt =====
-- Runs of schema-check.
use herdr_tokens.Prelude.{String, ◌==◌, [], ◌∷◌, ◌≡◌, refl, if◌then◌else◌, any}
use herdr_tokens.Prelude.Result.{Result, ok, err}
use herdr_tokens.Schema.Samples.{fixture, placeholder, real_path, computing}
use herdr_tokens.SchemaCheck.{check_file, check_files, check_main}
use herdr_tokens.SchemaCheck.ExitCodes.{code_of, unusable, dirty, check_main-code}

-- A file holds the path that its document shows.
abbrev read : String → Result String String
read path =
    if path == "clean.json"
    then ok (fixture placeholder)
    else if path == "leak.json"
    then ok (fixture real_path)
    else err "no such file"

codes :
    ((check_main read ("clean.json" ∷ [])).0 ≡ 0)
    × ((check_main read ("leak.json" ∷ "clean.json" ∷ [])).0 ≡ 1)
    × ((check_main read ("leak.json" ∷ "none.json" ∷ [])).0 ≡ 2)
unfolding computing check_main check_files check_file
codes = (refl, refl, refl)

check_main-code_example :
    ((check_main read []).0 ≡ 2)
    × ((check_main read ("leak.json" ∷ "clean.json" ∷ [])).0
        ≡ code_of
            (any (unusable read) ("leak.json" ∷ "clean.json" ∷ []))
            (any (dirty read) ("leak.json" ∷ "clean.json" ∷ [])))
check_main-code_example = check_main-code read "leak.json" ("clean.json" ∷ [])
