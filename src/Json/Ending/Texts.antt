-- ===== src/Json/Ending/Texts.antt =====
-- The calls on strings leave less than they were given.
use Prim.Native.Char.{Char, code}
use herdr_tokens.Prelude.{
  ℕ, zero, suc, ◌<◌, ◌≤◌, String, Option, none, some, arith, nat_eq, Bool-cases, inl, inr,
}
use herdr_tokens.Prelude.Result.{ok, err, ◌>>=◌}
use herdr_tokens.Json.Parse.{
  syntax, out_of_fuel, Read, size, hex4, low_half, Piece, bad, closing, one, paired, numbered,
  letter_escape, lettered, escaped, piece, cons_text, read_body, with_rest, four_digits, hex_value,
}

-- A call that does not run out of fuel, and leaves less than `n` characters.
abbrev pub Ends {ℓ} : {A : Type ℓ} → Read A → ℕ → Type 0
Ends (err syntax) n = Unit
Ends (err out_of_fuel) n = ⊥
Ends (ok (x, rest)) n = size rest < n

pub then_Ends {ℓ κ} :
    {A : Type ℓ} {B : Type κ} (r : Read A) (next : A × String → Read B) (n m : ℕ)
    → Ends r n
    → ((x : A) (rest : String) → size rest < n → Ends (next (x, rest)) m)
    → Ends (r >>= next) m
then_Ends (err syntax) next n m h k = tt
then_Ends (err out_of_fuel) next n m h k = absurd h
then_Ends (ok (x, rest)) next n m h k = k x rest h

abbrev pub OptionWithin : ℕ → Option (ℕ × String) → Type 0
OptionWithin n none = Unit
OptionWithin n (some (m, rest)) = size rest < n

pub hex4-Within : (s : String) (n : ℕ) → size s ≤ n → OptionWithin n (hex4 s)
unfolding hex4
hex4-Within String.[] n le = tt
hex4-Within (String.◌∷◌ a String.[]) n le = tt
hex4-Within (String.◌∷◌ a (String.◌∷◌ b String.[])) n le = tt
hex4-Within (String.◌∷◌ a (String.◌∷◌ b (String.◌∷◌ c String.[]))) n le = tt
hex4-Within (String.◌∷◌ a (String.◌∷◌ b (String.◌∷◌ c (String.◌∷◌ d s)))) n le =
    elim (four_digits (hex_value (code a)) (hex_value (code b)) (hex_value (code c))
        (hex_value (code d)))
      as (λ o. OptionWithin n (with_rest o s)) [ none ↦ tt | some m ↦ omega arith ]

pub low_half-Within : (s : String) (n : ℕ) → size s ≤ n → OptionWithin n (low_half s)
unfolding low_half
low_half-Within String.[] n le = tt
low_half-Within (String.◌∷◌ a String.[]) n le = tt
low_half-Within (String.◌∷◌ a (String.◌∷◌ b s)) n le = ground (arith, hex4-Within s n (omega arith))

abbrev pub PieceWithin : ℕ → Piece → Type 0
PieceWithin n bad = Unit
PieceWithin n (closing rest) = size rest < n
PieceWithin n (one c rest) = size rest < n

pub paired-Within :
    (n m : ℕ) (rest : String) (low : Option (ℕ × String))
    → size rest < m
    → OptionWithin m low
    → PieceWithin m (paired n rest low)
paired-Within n m rest none h k = h
paired-Within n m rest (some (l, after)) h k = ground arith

pub numbered-Within :
    (found : Option (ℕ × String)) (n : ℕ) → OptionWithin n found → PieceWithin n (numbered found)
numbered-Within none n h = tt
numbered-Within (some (m, rest)) n h =
    paired-Within m n rest (low_half rest) h (low_half-Within rest n (omega arith))

pub lettered-Within :
    (c : Option Char) (s : String) (n : ℕ) → size s < n → PieceWithin n (lettered c s)
lettered-Within none s n lt = tt
lettered-Within (some c) s n lt = lt

pub escaped-Within : (s : String) (n : ℕ) → size s ≤ n → PieceWithin n (escaped s)
unfolding escaped
escaped-Within String.[] n le = tt
escaped-Within (String.◌∷◌ c s) n le =
    let long = numbered-Within (hex4 s) n (hex4-Within s n (omega arith)) in
    let short = lettered-Within (letter_escape (code c)) s n (omega arith) in
    elim (Bool-cases (nat_eq (code c) b'u')) [ inl e ↦ rw e long | inr e ↦ rw e short ]

pub piece-Within : (s : String) (n : ℕ) → size s ≤ n → PieceWithin n (piece s)
unfolding piece
piece-Within String.[] n le = tt
piece-Within (String.◌∷◌ c s) n le =
    let escape = escaped-Within s n (omega arith) in
    elim (Bool-cases (nat_eq (code c) b'"')) [
      | inl e ↦ rw e (omega arith)
      | inr quote ↦ elim (Bool-cases (nat_eq (code c) b'\\')) [
        | inl e ↦ rw (quote, e) escape
        | inr e ↦ rw (quote, e) (ground arith)
      ]
    ]

pub cons_text-Ends : (c : Char) (r : Read String) (n : ℕ) → Ends r n → Ends (cons_text c r) n
cons_text-Ends c (err syntax) n h = tt
cons_text-Ends c (err out_of_fuel) n h = h
cons_text-Ends c (ok (s, rest)) n h = h

pub read_body-Ends : (f : ℕ) (s : String) (n : ℕ) → size s < f → size s ≤ n → Ends (read_body f s) n
unfolding read_body
read_body-Ends zero s n lt le = absurd (omega arith)
read_body-Ends (suc f) s n lt le =
    (elim (piece s)
        as (λ p.
          PieceWithin (size s) p
          → Ends
              (elim p [
                | bad ↦ err syntax
                | closing rest ↦ ok (String.[], rest)
                | one c rest ↦ cons_text c (read_body f rest)
              ])
              n) [
                | bad ↦ λ h. tt
                | closing rest ↦ λ h. omega arith
                | one c rest ↦ λ h.
                    cons_text-Ends c (read_body f rest) n
                      (read_body-Ends f rest n (omega arith) (omega arith))
              ])
      (piece-Within s (size s) (omega arith))
