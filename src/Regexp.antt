-- ===== src/Regexp.antt =====
-- The regular expressions that internal/herdrapi/schema.go anchors at both ends (`^…$`), as
-- `regexp.MatchString` reads them: a whole text against an expression, over its code points.
pub mod Language
use herdr_tokens.Prelude.{
  ℕ, zero, suc, String, codes, Bool, true, false, ◌&&◌, ◌||◌, List, [], ◌∷◌, leb, if◌then◌else◌,
}

-- `range lo hi` is one character of a class; `fails` matches nothing.
pub data Regex : Type 0 where
  fails : Regex
  nothing : Regex
  range : ℕ → ℕ → Regex
  seq : Regex → Regex → Regex
  alt : Regex → Regex → Regex
  star : Regex → Regex

abbrev exactly : List ℕ → Regex
exactly [] = nothing
exactly (c ∷ s) = seq (range c c) (exactly s)

abbrev pub literal : String → Regex
literal s = exactly (codes s)

-- `r+`
abbrev pub plus : Regex → Regex
plus r = seq r (star r)

-- `r{n}`
abbrev pub times : ℕ → Regex → Regex
times zero r = nothing
times (suc n) r = seq r (times n r)

-- Whether the empty text matches.
unfoldable pub nullable : Regex → Bool
nullable fails = false
nullable nothing = true
nullable (range lo hi) = false
nullable (seq r q) = nullable r && nullable q
nullable (alt r q) = nullable r || nullable q
nullable (star r) = true

-- What has to match the rest of a text that starts with `c`.
unfoldable pub after : ℕ → Regex → Regex
unfolding nullable
after c fails = fails
after c nothing = fails
after c (range lo hi) = if leb lo c && leb c hi then nothing else fails
after c (seq r q) = alt (seq (after c r) q) (if nullable r then after c q else fails)
after c (alt r q) = alt (after c r) (after c q)
after c (star r) = seq (after c r) (star r)

-- `re.MatchString(s)` for an anchored expression.
unfoldable pub matches : Regex → List ℕ → Bool
unfolding nullable after
matches r [] = nullable r
matches r (c ∷ s) = matches (after c r) s
