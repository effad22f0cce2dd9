-- ===== src/Decimal.antt =====
-- `strconv.Itoa` of a number that is not negative and `strconv.Atoi`, which derive.go and daemon.go
-- use: decimal digits, and the reader with its sign and its range.
pub mod RoundTrip
pub mod Samples
use herdr_tokens.Prelude.{
  ℕ, zero, suc, ◌+◌, ◌-◌, ◌*◌, ◌/◌, ◌%◌, String, ◌+++◌, Bool, ◌&&◌, Option, none, some, List, [],
  ◌∷◌, leb, nat_eq, if◌then◌else◌,
}
use herdr_tokens.Prelude.Int.{ℤ, pos, sub_ℕ, max_int64}

pick : List String → ℕ → String
pick [] n = ""
pick (s ∷ ss) zero = s
pick (s ∷ ss) (suc n) = pick ss n

unfoldable pub digit_text : ℕ → String
unfolding pick
digit_text = pick ("0" ∷ "1" ∷ "2" ∷ "3" ∷ "4" ∷ "5" ∷ "6" ∷ "7" ∷ "8" ∷ "9" ∷ [])

-- Digits are put in front until none is left; a number is fuel enough for its own digits.
unfoldable pub emit : ℕ → ℕ → String → String
unfolding digit_text
emit zero n out = out
emit (suc fuel) n out =
    let rest = emit fuel (n / 10) (digit_text (n % 10) +++ out) in if nat_eq n 0 then out else rest

unfoldable pub itoa : ℕ → String
unfolding emit
itoa n = if nat_eq n 0 then "0" else emit n n ""

abbrev pub is_digit : ℕ → Bool
is_digit c = leb b'0' c && leb c b'9'

-- The value of a run of digits, started at `n`.
unfoldable pub scan : ℕ → List ℕ → Option ℕ
scan n [] = some n
scan n (c ∷ s) = if is_digit c then scan (n * 10 + (c - b'0')) s else none

abbrev in_range : ℕ → (ℕ → ℤ) → Option ℕ → Option ℤ
in_range most sign none = none
in_range most sign (some n) = if leb n most then some (sign n) else none

abbrev digits_only : (ℕ → ℤ) → ℕ → List ℕ → Option ℤ
digits_only sign most [] = none
digits_only sign most (c ∷ s) = in_range most sign (scan 0 (c ∷ s))

-- `none` is a syntax or range error.
unfoldable pub atoi : List ℕ → Option ℤ
unfolding scan
atoi [] = none
atoi (c ∷ s) =
    if nat_eq c b'-'
    then digits_only (λ n. sub_ℕ 0 n) (max_int64 + 1) s
    else if nat_eq c b'+'
    then digits_only pos max_int64 s
    else digits_only pos max_int64 (c ∷ s)
