-- ===== src/Json/RoundTrip/Strings.antt =====
-- The escapes of a string are read back, character by character.
use Prim.Native.Nat.{compare, Ordering}
use Prim.Native.Char.{Char, char, code}
use text.Mathlib.TextEquality.{Char-path}
use herdr_tokens.Prelude.{
  ℕ, zero, suc, ◌+◌, ◌*◌, ◌/◌, ◌%◌, ◌<◌, String, true, false, ◌||◌, Option, none, some, [], ◌∷◌,
  ◌≡◌, refl, ap, sym, ◌∙◌, arith, Bool-cases, inl, inr, nat_eq, nat_eq_iff, ltb, any, if◌then◌else◌,
}
use herdr_tokens.Prelude.Result.{ok}
use herdr_tokens.Json.Print.{hex_char, put_unicode, escape_of, put_escaped, put_body, plain, long}
use herdr_tokens.Json.Parse.{
  Scalar, scalar?, char_if, char_of, hex_value, hex4, low_half, piece, escaped, one, read_body,
  size, cons_text, paired, numbered,
}

same_char : (c d : Char) → nat_eq (code c) (code d) ≡ true → d ≡ c
same_char c d h = Char-path d c (sym ((nat_eq_iff (code c) (code d)).0 h))

scalar?-some : (a b c : Ordering) (p : Scalar a b c) → scalar? a b c ≡ some p
scalar?-some Ordering.lt b c p = refl
scalar?-some Ordering.eq Ordering.lt Ordering.lt p = refl
scalar?-some Ordering.eq Ordering.lt Ordering.eq p = absurd p
scalar?-some Ordering.eq Ordering.lt Ordering.gt p = absurd p
scalar?-some Ordering.eq Ordering.eq c p = absurd p
scalar?-some Ordering.eq Ordering.gt c p = absurd p
scalar?-some Ordering.gt Ordering.lt Ordering.lt p = refl
scalar?-some Ordering.gt Ordering.lt Ordering.eq p = absurd p
scalar?-some Ordering.gt Ordering.lt Ordering.gt p = absurd p
scalar?-some Ordering.gt Ordering.eq c p = absurd p
scalar?-some Ordering.gt Ordering.gt c p = absurd p

char_of-code : (c : Char) → char_of (code c) ≡ c
unfolding char_of
char_of-code (char n p) =
    ap (char_if n) (scalar?-some (compare n 55296) (compare 57343 n) (compare n 1114112) p)

hex_value-hex_char : (d : ℕ) → d < 16 → hex_value (code (hex_char d)) ≡ some d
unfolding hex_char
hex_value-hex_char zero h = refl
hex_value-hex_char (suc zero) h = refl
hex_value-hex_char (suc (suc zero)) h = refl
hex_value-hex_char (suc (suc (suc zero))) h = refl
hex_value-hex_char (suc (suc (suc (suc zero)))) h = refl
hex_value-hex_char (suc (suc (suc (suc (suc zero))))) h = refl
hex_value-hex_char (suc (suc (suc (suc (suc (suc zero)))))) h = refl
hex_value-hex_char (suc (suc (suc (suc (suc (suc (suc zero))))))) h = refl
hex_value-hex_char (suc (suc (suc (suc (suc (suc (suc (suc zero)))))))) h = refl
hex_value-hex_char (suc (suc (suc (suc (suc (suc (suc (suc (suc zero))))))))) h = refl
hex_value-hex_char (suc (suc (suc (suc (suc (suc (suc (suc (suc (suc zero)))))))))) h = refl
hex_value-hex_char (suc (suc (suc (suc (suc (suc (suc (suc (suc (suc (suc zero))))))))))) h = refl
hex_value-hex_char (suc (suc (suc (suc (suc (suc (suc (suc (suc (suc (suc (suc zero)))))))))))) h =
    refl
hex_value-hex_char
      (suc (suc (suc (suc (suc (suc (suc (suc (suc (suc (suc (suc (suc zero))))))))))))) h =
    refl
hex_value-hex_char
      (suc (suc (suc (suc (suc (suc (suc (suc (suc (suc (suc (suc (suc (suc zero)))))))))))))) h =
    refl
hex_value-hex_char
      (suc (suc (suc (suc (suc (suc (suc (suc (suc (suc (suc (suc (suc (suc (suc zero)))))))))))))))
      h =
    refl
hex_value-hex_char
      (suc
        (suc (suc (suc (suc (suc (suc (suc (suc (suc (suc (suc (suc (suc (suc (suc n))))))))))))))))
      h =
    absurd (omega arith)

hex4-put :
    (n : ℕ) (rest : String)
    → n < 65536
    → hex4 (
        String.◌∷◌ (hex_char (n / 4096)) (
          String.◌∷◌
            (hex_char (n / 256 % 16))
            (String.◌∷◌ (hex_char (n / 16 % 16)) (String.◌∷◌ (hex_char (n % 16)) rest))))
      ≡ some (n, rest)
unfolding hex4
hex4-put n rest h =
    let total : n / 4096 * 4096 + n / 256 % 16 * 256 + n / 16 % 16 * 16 + n % 16 ≡ n =
      omega arith in
    rw
      (
        hex_value-hex_char (n / 4096) (omega arith),
        hex_value-hex_char (n / 256 % 16) (omega arith),
        hex_value-hex_char (n / 16 % 16) (omega arith),
        hex_value-hex_char (n % 16) (omega arith),
      )
      (rw total refl)

paired_plain :
    (n : ℕ) (rest : String) (next : Option (ℕ × String))
    → n < 55296
    → paired n rest next ≡ one (char_of n) rest
paired_plain n rest none h = refl
paired_plain n rest (some (m, after)) h = ground arith

piece-put_unicode :
    (n : ℕ) (rest : String) → n < 55296 → piece (put_unicode n rest) ≡ one (char_of n) rest
unfolding piece put_unicode escaped
piece-put_unicode n rest h =
    rw (hex4-put n rest (omega arith), numbered) (paired_plain n rest (low_half rest) h)

piece_plain :
    (c : Char) (s : String)
    → nat_eq (code c) 34 ≡ false
    → nat_eq (code c) 92 ≡ false
    → ltb (code c) 32 ≡ false
    → piece (String.◌∷◌ c s) ≡ one c s
unfolding piece
piece_plain c s a b l = rw (a, b, l) refl

piece_plain_or_long :
    (c : Char) (s : String)
    → nat_eq (code c) 34 ≡ false
    → nat_eq (code c) 92 ≡ false
    → piece (
        put_escaped c
          (if ltb (code c) 32 || any (λ m. nat_eq m (code c)) (60 ∷ 62 ∷ 38 ∷ 8232 ∷ 8233 ∷ [])
            then long
            else plain)
          s)
      ≡ one c s
piece_plain_or_long c s a b =
    elim (Bool-cases
      (ltb (code c) 32 || any (λ m. nat_eq m (code c)) (60 ∷ 62 ∷ 38 ∷ 8232 ∷ 8233 ∷ []))) [
        | inl special ↦
            rw special
              (piece-put_unicode (code c) s (ground arith) ∙ ap (λ d. one d s) (char_of-code c))
        | inr usual ↦ rw usual (piece_plain c s a b (ground arith))
      ]

-- What a character is written as is read as that character.
piece-put_escaped : (c : Char) (s : String) → piece (put_escaped c (escape_of (code c)) s) ≡ one c s
unfolding escape_of piece escaped
piece-put_escaped c s = elim (Bool-cases (nat_eq (code c) 34)) [
  | inl e ↦ rw e (ap (λ d. one d s) (same_char c "\"" e))
  | inr quote ↦ elim (Bool-cases (nat_eq (code c) 92)) [
    | inl e ↦ rw (quote, e) (ap (λ d. one d s) (same_char c "\\" e))
    | inr slash ↦ elim (Bool-cases (nat_eq (code c) 8)) [
      | inl e ↦ rw (quote, slash, e) (ap (λ d. one d s) (same_char c (char 8 tt) e))
      | inr b ↦ elim (Bool-cases (nat_eq (code c) 12)) [
        | inl e ↦ rw (quote, slash, b, e) (ap (λ d. one d s) (same_char c (char 12 tt) e))
        | inr f ↦ elim (Bool-cases (nat_eq (code c) 10)) [
          | inl e ↦ rw (quote, slash, b, f, e) (ap (λ d. one d s) (same_char c "\n" e))
          | inr n ↦ elim (Bool-cases (nat_eq (code c) 13)) [
            | inl e ↦ rw (quote, slash, b, f, n, e) (ap (λ d. one d s) (same_char c "\r" e))
            | inr r ↦ elim (Bool-cases (nat_eq (code c) 9)) [
              | inl e ↦ rw (quote, slash, b, f, n, r, e) (ap (λ d. one d s) (same_char c "\t" e))
              | inr t ↦ rw (quote, slash, b, f, n, r, t) (piece_plain_or_long c s quote slash)
            ]
          ]
        ]
      ]
    ]
  ]
]

-- The body of a printed string is read back, with a unit of fuel for each character.
pub read_body-put_body :
    (s rest : String) (f : ℕ)
    → size s < f
    → read_body f (put_body s (String.◌∷◌ "\"" rest)) ≡ ok (s, rest)
unfolding read_body put_body piece
read_body-put_body s rest zero h = absurd (omega arith)
read_body-put_body String.[] rest (suc f) h = refl
read_body-put_body (String.◌∷◌ c s) rest (suc f) h =
    rw (piece-put_escaped c (put_body s (String.◌∷◌ "\"" rest)), read_body)
      (rw (read_body-put_body s rest f (omega arith), cons_text) refl)
