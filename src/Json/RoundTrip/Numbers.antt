-- ===== src/Json/RoundTrip/Numbers.antt =====
-- The decimal text of a number is in the grammar of numbers: digits, and no zero in front of others.
use package.text.Mathlib.TextLemmas.{nil-append, cons-append}
use mathlib.Core.List.{append-nil}
use herdr_tokens.Prelude.{
  ℕ, zero, suc, ◌+◌, ◌/◌, ◌%◌, ◌≤◌, String, ◌+++◌, codes, true, false, List, [], ◌∷◌, ◌≡◌, refl,
  ◌∙◌, arith, All, All-map, Bool-cases, inl, inr, nat_eq,
}
use herdr_tokens.Regexp.{Regex, literal, star, range, seq, alt}
use herdr_tokens.Regexp.Language.{Matches, empty, char, both, left, right, stop, again, matches_iff}
use herdr_tokens.Decimal.{digit_text, emit, itoa, is_digit}
use herdr_tokens.Decimal.RoundTrip.{codes-append, codes-digit_text, itoa-digits}
use herdr_tokens.Json.Parse.{in_number, re_number}
use herdr_tokens.Json.RoundTrip.Literals.{IsLiteral}

-- The first digit of a text is none or not zero.
record Leads (s : List ℕ) : Type 0 where
  pub first : ℕ
  pub rest : List ℕ
  pub splits : s ≡ first ∷ rest
  pub low : 49 ≤ first
  pub high : first ≤ 57

emit_zero : (f : ℕ) (out : String) → emit f 0 out ≡ out
unfolding emit
emit_zero zero out = refl
emit_zero (suc f) out = refl

emit-Leads : (f n : ℕ) (out : String) → 1 ≤ n → n ≤ f → Leads (codes (emit f n out))
unfolding emit
emit-Leads zero n out p le = absurd (omega arith)
emit-Leads (suc f) n out p le =
    let digits : codes (digit_text (n % 10) +++ out) ≡ (48 + n % 10) ∷ codes out =
      codes-append (digit_text (n % 10)) out ∙ rw (codes-digit_text (n % 10) (omega arith)) refl in
    elim (Bool-cases (nat_eq n 0)) [
      | inl e ↦ absurd (ground arith)
      | inr more ↦ elim (Bool-cases (nat_eq (n / 10) 0)) [
        | inl last ↦
            let e : n / 10 ≡ 0 = ground arith in
            rw more (
              rw e (
                rw (emit_zero f (digit_text (n % 10) +++ out)) (record {
                  first = 48 + n % 10;
                  rest = codes out;
                  splits = digits;
                  low = omega arith;
                  high = omega arith;
                })))
        | inr on ↦
            rw more
              (emit-Leads f (n / 10) (digit_text (n % 10) +++ out) (ground arith) (omega arith))
      ]
    ]

digits_star : (s : List ℕ) → All (λ c. is_digit c ≡ true) s → Matches (star (range 48 57)) s
digits_star [] h = stop
digits_star (c ∷ s) (h, hs) =
    again (c ∷ []) s (c ∷ s) refl (char c (ground arith) (ground arith)) (digits_star s hs)

itoa-Leads : (n : ℕ) → nat_eq n 0 ≡ false → Leads (codes (itoa n))
unfolding itoa
itoa-Leads n more = rw more (emit-Leads n n "" (ground arith) (omega arith))

-- `0`, or a digit that is not zero and digits
abbrev re_digits : Regex
re_digits = alt (literal "0") (seq (range 49 57) (star (range 48 57)))

leading-Matches : (s : List ℕ) → Leads s → All (λ c. is_digit c ≡ true) s → Matches re_digits s
leading-Matches [] l h = let e = l.splits in cc
leading-Matches (c ∷ s) l (h, hs) =
    let e : c ≡ l.first = cc (l.splits) in
    right (both (c ∷ []) s (c ∷ s) refl (char c (rw e l.low) (rw e l.high)) (digits_star s hs))

zero-Matches : Matches re_digits (48 ∷ [])
zero-Matches = left (both (48 ∷ []) [] (48 ∷ []) refl (char 48 (omega arith) (omega arith)) empty)

itoa-Matches : (n : ℕ) → Matches re_digits (codes (itoa n))
itoa-Matches n = elim (Bool-cases (nat_eq n 0)) [
  | inl z ↦ let e : n ≡ 0 = ground arith in rw e (unfold itoa in zero-Matches)
  | inr more ↦ leading-Matches (codes (itoa n)) (itoa-Leads n more) (itoa-digits n).1
]

number-Matches : (s : List ℕ) → Matches re_digits s → Matches re_number s
number-Matches s m =
    both [] s s refl (left empty)
      (both s [] s (append-nil s) m (both [] [] [] refl (left empty) (left empty)))

negative-Matches : (s : List ℕ) → Matches re_digits s → Matches re_number (45 ∷ s)
negative-Matches s m =
    both (45 ∷ []) s (45 ∷ s) refl
      (right (both (45 ∷ []) [] (45 ∷ []) refl (char 45 (omega arith) (omega arith)) empty))
      (both s [] s (append-nil s) m (both [] [] [] refl (left empty) (left empty)))

spelled : (n : ℕ) → All (λ c. in_number c ≡ true) (codes (itoa n))
spelled n = All-map (codes (itoa n)) (λ c d. ground arith) (itoa-digits n).1

pub itoa-IsLiteral : (n : ℕ) → IsLiteral (itoa n)
itoa-IsLiteral n = record {
  spelled = spelled n;
  grammar = (matches_iff re_number (codes (itoa n))).1 (number-Matches _ (itoa-Matches n));
}

pub negative-IsLiteral : (n : ℕ) → IsLiteral ("-" +++ itoa n)
negative-IsLiteral n =
    rw (cons-append "-" "" (itoa n), nil-append)
      record {
        spelled = (refl, spelled n);
        grammar = (matches_iff re_number _).1 (negative-Matches _ (itoa-Matches n));
      }
