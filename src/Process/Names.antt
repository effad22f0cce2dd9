-- ===== src/Process/Names.antt =====
-- The names of state files tell sockets and kinds of file apart.
use text.Mathlib.TextLemmas.{append_cancel_left, append_assoc}
use herdr_tokens.Prelude.{
  ◌≢◌, ◌*◌, ◌++◌, All-append, length-append, ℕ, zero, suc, ◌+◌, ◌/◌, ◌%◌, ◌≤◌, ◌<◌, String, ◌+++◌,
  codes, List, [], ◌∷◌, ◌≡◌, refl, sym, ◌∙◌, ap, arith, All, length, ltb, if◌then◌else◌,
}
use herdr_tokens.Decimal.RoundTrip.{codes-append}
use herdr_tokens.Process.{System, hex_digit, hex_encode, first_bytes, state_file}

abbrev hex_code : ℕ → ℕ
hex_code d = if ltb d 10 then 48 + d else 87 + d

codes-hex_digit : (d : ℕ) → d < 16 → codes (hex_digit d) ≡ hex_code d ∷ []
unfolding hex_digit
codes-hex_digit zero h = refl
codes-hex_digit (suc zero) h = refl
codes-hex_digit (suc (suc zero)) h = refl
codes-hex_digit (suc (suc (suc zero))) h = refl
codes-hex_digit (suc (suc (suc (suc zero)))) h = refl
codes-hex_digit (suc (suc (suc (suc (suc zero))))) h = refl
codes-hex_digit (suc (suc (suc (suc (suc (suc zero)))))) h = refl
codes-hex_digit (suc (suc (suc (suc (suc (suc (suc zero))))))) h = refl
codes-hex_digit (suc (suc (suc (suc (suc (suc (suc (suc zero)))))))) h = refl
codes-hex_digit (suc (suc (suc (suc (suc (suc (suc (suc (suc zero))))))))) h = refl
codes-hex_digit (suc (suc (suc (suc (suc (suc (suc (suc (suc (suc zero)))))))))) h = refl
codes-hex_digit (suc (suc (suc (suc (suc (suc (suc (suc (suc (suc (suc zero))))))))))) h = refl
codes-hex_digit (suc (suc (suc (suc (suc (suc (suc (suc (suc (suc (suc (suc zero)))))))))))) h =
    refl
codes-hex_digit (suc (suc (suc (suc (suc (suc (suc (suc (suc (suc (suc (suc (suc zero)))))))))))))
      h =
    refl
codes-hex_digit
      (suc (suc (suc (suc (suc (suc (suc (suc (suc (suc (suc (suc (suc (suc zero)))))))))))))) h =
    refl
codes-hex_digit
      (suc (suc (suc (suc (suc (suc (suc (suc (suc (suc (suc (suc (suc (suc (suc zero)))))))))))))))
      h =
    refl
codes-hex_digit
      (suc
        (suc (suc (suc (suc (suc (suc (suc (suc (suc (suc (suc (suc (suc (suc (suc n))))))))))))))))
      h =
    absurd (omega arith)

hex_digit-cancel :
    (a b : ℕ) (s t : String)
    → a < 16
    → b < 16
    → hex_digit a +++ s ≡ hex_digit b +++ t
    → (a ≡ b) × (s ≡ t)
hex_digit-cancel a b s t ha hb h =
    let left : codes (hex_digit a +++ s) ≡ hex_code a ∷ codes s =
      rw (codes-append (hex_digit a) s) (rw (codes-hex_digit a ha) refl) in
    let right : codes (hex_digit b +++ t) ≡ hex_code b ∷ codes t =
      rw (codes-append (hex_digit b) t) (rw (codes-hex_digit b hb) refl) in
    let heads : hex_code a ≡ hex_code b = cc (left, right, ap codes h) in
    let same : a ≡ b = ground arith in (same, append_cancel_left (hex_digit b) s t (rw same at h))

abbrev IsBytes : List ℕ → Type 0
IsBytes = All (λ b. b < 256)

hex_encode-cons :
    (b : ℕ) (bs : List ℕ) (s : String)
    → hex_encode (b ∷ bs) +++ s
      ≡ hex_digit (b / 16) +++ (hex_digit (b % 16) +++ (hex_encode bs +++ s))
unfolding hex_encode
hex_encode-cons b bs s =
    append_assoc (hex_digit (b / 16)) (hex_digit (b % 16) +++ hex_encode bs) s
    ∙ ap (λ x. hex_digit (b / 16) +++ x) (append_assoc (hex_digit (b % 16)) (hex_encode bs) s)

hex_encode-cancel :
    (bs cs : List ℕ) (s t : String)
    → length bs ≡ length cs
    → IsBytes bs
    → IsBytes cs
    → hex_encode bs +++ s ≡ hex_encode cs +++ t
    → (bs ≡ cs) × (s ≡ t)
unfolding hex_encode
hex_encode-cancel [] [] s t n hb hc h = (refl, append_cancel_left "" s t h)
hex_encode-cancel [] (c ∷ cs) s t n hb hc h = absurd (omega arith)
hex_encode-cancel (b ∷ bs) [] s t n hb hc h = absurd (omega arith)
hex_encode-cancel (b ∷ bs) (c ∷ cs) s t n (hb, hbs) (hc, hcs) h =
    let h1 = sym (hex_encode-cons b bs s) ∙ h ∙ hex_encode-cons c cs t in
    let (high, h2) = hex_digit-cancel (b / 16) (c / 16) _ _ (omega arith) (omega arith) h1 in
    let (low, h3) = hex_digit-cancel (b % 16) (c % 16) _ _ (omega arith) (omega arith) h2 in
    let (rest, same) = hex_encode-cancel bs cs s t (omega arith) hbs hcs h3 in
    let byte : b ≡ c = omega arith in (cc, same)

-- A digest as sha256 gives it: bytes, eight of them at least.
abbrev pub IsDigest : List ℕ → Type 0
IsDigest bs = All (λ b. b < 256) bs × (8 ≤ length bs)

first_bytes-All : (n : ℕ) (bs : List ℕ) → IsBytes bs → IsBytes (first_bytes n bs)
first_bytes-All zero bs h = tt
first_bytes-All (suc n) [] h = tt
first_bytes-All (suc n) (b ∷ bs) (h, hs) = (h, first_bytes-All n bs hs)

length-first_bytes : (n : ℕ) (bs : List ℕ) → n ≤ length bs → length (first_bytes n bs) ≡ n
length-first_bytes zero bs h = refl
length-first_bytes (suc n) [] h = absurd (omega arith)
length-first_bytes (suc n) (b ∷ bs) h = omega (arith, length-first_bytes n bs (omega arith))

-- A plain file name: no slash in it, and longer than the two names of directories.
abbrev pub IsName : String → Type 0
IsName s = All (λ c. c ≢ 47) (codes s) × (2 < length (codes s))

-- `filepath.Join` keeps a plain name as the last element of the path.
abbrev pub KeepsNames : {World : Type 0} → System World → Type 0
KeepsNames sys = (d s t : String) → IsName s → IsName t → sys.join d s ≡ sys.join d t → s ≡ t

hex_code-plain : (d : ℕ) → d < 16 → hex_code d ≢ 47
hex_code-plain d h = ground arith

hex_encode-plain :
    (bs : List ℕ)
    → IsBytes bs
    → All (λ c. c ≢ 47) (codes (hex_encode bs)) × (length (codes (hex_encode bs)) ≡ 2 * length bs)
unfolding hex_encode
hex_encode-plain [] h = (tt, refl)
hex_encode-plain (b ∷ bs) (h, hs) =
    let (plain, long) = hex_encode-plain bs hs in
    let high = codes-hex_digit (b / 16) (omega arith) in
    let low = codes-hex_digit (b % 16) (omega arith) in
    let both : codes (hex_digit (b / 16) +++ (hex_digit (b % 16) +++ hex_encode bs))
        ≡ hex_code (b / 16) ∷ hex_code (b % 16) ∷ codes (hex_encode bs) =
      rw (codes-append, codes-append, high, low) refl in
    rw both (
      (hex_code-plain (b / 16) (omega arith), (hex_code-plain (b % 16) (omega arith), plain)),
      omega (arith, long),
    )

hex_encode-IsName :
    (bs : List ℕ) (name : String)
    → IsBytes bs
    → 1 < length bs
    → All (λ c. c ≢ 47) (codes name)
    → IsName (hex_encode bs +++ ("-" +++ name))
hex_encode-IsName bs name h long plain =
    let (digits, size) = hex_encode-plain bs h in
    let parts : codes (hex_encode bs +++ ("-" +++ name))
        ≡ codes (hex_encode bs) ++ (45 ∷ codes name) =
      codes-append (hex_encode bs) ("-" +++ name)
      ∙ ap (λ t. codes (hex_encode bs) ++ t) (codes-append "-" name) in
    rw parts (
      All-append (λ c. c ≢ 47) (codes (hex_encode bs)) (45 ∷ codes name) digits
          ((λ e. absurd (omega (arith, e))), plain),
      omega (arith, length-append (codes (hex_encode bs)) (45 ∷ codes name)),
    )

-- Where joining a directory and a plain name keeps the name, two state files of one directory, for names
-- without a slash, have the same path only if they are the same kind of file and the digests of the two
-- sockets' cleaned paths agree in their first eight bytes.
pub state_file-separate :
    {World : Type 0} (sys : System World) (state_dir socket name socket' name' : String)
    → KeepsNames sys
    → All (λ c. c ≢ 47) (codes name)
    → All (λ c. c ≢ 47) (codes name')
    → IsDigest (sys.sha256 (sys.clean socket))
    → IsDigest (sys.sha256 (sys.clean socket'))
    → state_file sys state_dir socket name ≡ state_file sys state_dir socket' name'
    → (name ≡ name')
      × (first_bytes 8 (sys.sha256 (sys.clean socket))
          ≡ first_bytes 8 (sys.sha256 (sys.clean socket')))
unfolding state_file
state_file-separate sys state_dir socket name socket' name' keeps pa pb (ha, la) (hb, lb) h =
    let a = sys.sha256 (sys.clean socket) in
    let b = sys.sha256 (sys.clean socket') in
    let bytes_a = first_bytes-All 8 a ha in
    let bytes_b = first_bytes-All 8 b hb in
    let size_a = length-first_bytes 8 a la in
    let size_b = length-first_bytes 8 b lb in
    let names =
      keeps state_dir _ _
        (hex_encode-IsName (first_bytes 8 a) name bytes_a (omega (arith, size_a)) pa)
        (hex_encode-IsName (first_bytes 8 b) name' bytes_b (omega (arith, size_b)) pb) h in
    let (same, ends) =
      hex_encode-cancel (first_bytes 8 a) (first_bytes 8 b) ("-" +++ name) ("-" +++ name')
        (size_a ∙ sym size_b) bytes_a bytes_b names in
    (append_cancel_left "-" name name' ends, same)
