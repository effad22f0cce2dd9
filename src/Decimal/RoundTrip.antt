-- ===== src/Decimal/RoundTrip.antt =====
-- Reading back what `Itoa` wrote.
use text.Mathlib.TextLemmas.{nil-append, cons-append}
use herdr_tokens.Prelude.{
  ℕ, zero, suc, ◌+◌, ◌/◌, ◌%◌, ◌≤◌, ◌<◌, String, ◌+++◌, codes, List, ◌∷◌, ◌++◌, ◌≡◌, ◌∙◌, ap, ◌*◌,
  ◌-◌, refl, some, arith, inl, inr, Bool-cases, nat_eq, ◌≢◌, All, true, [],
}
use herdr_tokens.Prelude.Int.{pos, max_int64}
use herdr_tokens.Decimal.{digit_text, emit, itoa, is_digit, scan, atoi}

pub codes-append : (s t : String) → codes (s +++ t) ≡ codes s ++ codes t
codes-append String.[] t = rw nil-append
codes-append (String.◌∷◌ c s) t = rw cons-append (rw (codes-append s t))

pub codes-digit_text : (d : ℕ) → d < 10 → codes (digit_text d) ≡ (48 + d) ∷ []
unfolding digit_text
codes-digit_text zero h = refl
codes-digit_text (suc zero) h = refl
codes-digit_text (suc (suc zero)) h = refl
codes-digit_text (suc (suc (suc zero))) h = refl
codes-digit_text (suc (suc (suc (suc zero)))) h = refl
codes-digit_text (suc (suc (suc (suc (suc zero))))) h = refl
codes-digit_text (suc (suc (suc (suc (suc (suc zero)))))) h = refl
codes-digit_text (suc (suc (suc (suc (suc (suc (suc zero))))))) h = refl
codes-digit_text (suc (suc (suc (suc (suc (suc (suc (suc zero)))))))) h = refl
codes-digit_text (suc (suc (suc (suc (suc (suc (suc (suc (suc zero))))))))) h = refl
codes-digit_text (suc (suc (suc (suc (suc (suc (suc (suc (suc (suc n)))))))))) h =
    absurd (omega arith)

-- One digit read.
scan-digit_text :
    (a d : ℕ) (out : String)
    → d < 10
    → scan a (codes (digit_text d +++ out)) ≡ scan (a * 10 + d) (codes out)
unfolding scan
scan-digit_text a d out h =
    rw (codes-append (digit_text d) out) (rw (codes-digit_text d h) (ground arith))

scan-emit : (f n : ℕ) (out : String) → n ≤ f → scan 0 (codes (emit f n out)) ≡ scan n (codes out)
unfolding emit
scan-emit zero n out h = let e : n ≡ 0 = omega arith in rw e
scan-emit (suc f) n out h = elim (Bool-cases (nat_eq n 0)) [
  | inl done ↦ let e : n ≡ 0 = ground arith in rw done (rw e)
  | inr more ↦ rw more (
      scan-emit f (n / 10) (digit_text (n % 10) +++ out) (ground arith)
      ∙ scan-digit_text (n / 10) (n % 10) out (omega arith)
      ∙ ap (λ m. scan m (codes out)) (omega arith))
]

-- `Itoa` writes decimal digits that denote the number.
pub scan-itoa : (n : ℕ) → scan 0 (codes (itoa n)) ≡ some n
unfolding itoa
scan-itoa n = elim (Bool-cases (nat_eq n 0)) [
  | inl zero_too ↦ let e : n ≡ 0 = ground arith in rw zero_too (rw e (unfold scan in refl))
  | inr more ↦ rw more (scan-emit n n "" (omega arith) ∙ (unfold scan in refl))
]

IsDigits : List ℕ → Type 0
IsDigits = All (λ c. is_digit c ≡ true)

scan-IsDigits : (a n : ℕ) (s : List ℕ) → scan a s ≡ some n → IsDigits s
unfolding scan IsDigits
scan-IsDigits a n [] h = tt
scan-IsDigits a n (c ∷ s) h = ground (arith, scan-IsDigits (a * 10 + (c - 48)) n s)

itoa-ne-nil : (n : ℕ) → codes (itoa n) ≢ []
itoa-ne-nil n e =
    let zero_too : n ≡ 0 = unfold scan in ground (arith, scan-itoa n) in
    let start : codes (itoa 0) ≡ [] = rw zero_too at e in unfold itoa in cc start

-- The texts of numbers are nonempty runs of digits.
pub itoa-digits : (n : ℕ) → (codes (itoa n) ≢ []) × All (λ c. is_digit c ≡ true) (codes (itoa n))
unfolding IsDigits
itoa-digits n = (itoa-ne-nil n, scan-IsDigits 0 n (codes (itoa n)) (scan-itoa n))

atoi_digits :
    (n : ℕ) (s : List ℕ) → s ≢ [] → scan 0 s ≡ some n → n ≤ max_int64 → atoi s ≡ some (pos n)
unfolding atoi
atoi_digits n [] ne h le = absurd (ne refl)
atoi_digits n (c ∷ s) ne h le = ground arith

-- `Atoi` reads back what `Itoa` wrote of an int.
pub atoi-itoa : (n : ℕ) → n ≤ max_int64 → atoi (codes (itoa n)) ≡ some (pos n)
atoi-itoa n h = atoi_digits n (codes (itoa n)) (itoa-ne-nil n) (scan-itoa n) h

-- Different numbers have different texts.
pub itoa_injective : (m n : ℕ) → itoa m ≡ itoa n → m ≡ n
itoa_injective m n e = cc (scan-itoa m, scan-itoa n)
