-- ===== src/Process/Pid.antt =====
-- The PID file is read back as it was written.
use herdr_tokens.Prelude.{
  ℕ, ◌≤◌, String, codes, true, false, none, List, [], ◌∷◌, ◌≡◌, refl, arith, All, All-map, Option,
  some,
}
use herdr_tokens.Prelude.Int.{pos, max_int64}
use herdr_tokens.Prelude.Result.{ok}
use herdr_tokens.Decimal.{itoa, is_digit}
use herdr_tokens.Decimal.RoundTrip.{itoa-digits, atoi-itoa}
use herdr_tokens.Process.{
  System, is_space, trim_left, trim_right, trim_space, write_pid, read_pid, after_mkdir, parsed_pid,
}

trim_left_lem : (s : List ℕ) → All (λ c. is_space c ≡ false) s → trim_left s ≡ s
unfolding trim_left
trim_left_lem [] h = refl
trim_left_lem (c ∷ s) (n, h) = rw n refl

trim_right_lem : (s : List ℕ) → All (λ c. is_space c ≡ false) s → trim_right s ≡ s
unfolding trim_right
trim_right_lem [] h = refl
trim_right_lem (c ∷ []) (n, h) = rw n refl
trim_right_lem (c ∷ d ∷ s) (n, h) = rw (trim_right_lem (d ∷ s) h) refl

-- There is nothing to trim where no character is a space.
trim_space_lem : (s : List ℕ) → All (λ c. is_space c ≡ false) s → trim_space s ≡ s
unfolding trim_space
trim_space_lem s h = rw (trim_left_lem s h) (trim_right_lem s h)

digit_is_no_space : (c : ℕ) → is_digit c ≡ true → is_space c ≡ false
digit_is_no_space c h = ground arith

trim_space-itoa : (n : ℕ) → trim_space (codes (itoa n)) ≡ codes (itoa n)
trim_space-itoa n =
    trim_space_lem (codes (itoa n))
      (All-map (codes (itoa n)) (λ c h. digit_is_no_space c h) (itoa-digits n).1)

-- What the documentation of a file system says: a file that was written reads as what was written.
abbrev pub KeepsFiles : {World : Type 0} → System World → Type 0
KeepsFiles {World} sys =
    (path s : String) (w : World)
    → (sys.write_file path s w).0 ≡ none
    → sys.read_file path (sys.write_file path s w).1 ≡ ok s

written-reads :
    {World : Type 0} (sys : System World) (path : String) (pid : ℕ) (p : Option String × World)
    → KeepsFiles sys
    → (after_mkdir sys path pid p).0 ≡ none
    → sys.read_file path (after_mkdir sys path pid p).1 ≡ ok (itoa pid)
written-reads sys path pid (none, w) keeps h = keeps path (itoa pid) w h
written-reads sys path pid (some e, w) keeps h = cc

module _ {World : Type 0} (sys : System World) where
  read_pid-written :
      (path : String) (pid : ℕ) (w : World)
      → pid ≤ max_int64
      → sys.read_file path w ≡ ok (itoa pid)
      → read_pid sys path w ≡ ok (pos pid)
  unfolding read_pid
  read_pid-written path pid w le h =
      rw h (rw (trim_space-itoa pid, parsed_pid) (rw (atoi-itoa pid le) refl))

-- If `WritePID` succeeds then `ReadPID` gives the process id, for an id that an int can hold.
pub read_pid-write_pid :
    {World : Type 0} (sys : System World) (path : String) (pid : ℕ) (w : World)
    → KeepsFiles sys
    → pid ≤ max_int64
    → (write_pid sys path pid w).0 ≡ none
    → read_pid sys path (write_pid sys path pid w).1 ≡ ok (pos pid)
unfolding write_pid
read_pid-write_pid sys path pid w keeps le h =
    read_pid-written sys path pid (write_pid sys path pid w).1 le
      (written-reads sys path pid (sys.mkdir_all (sys.dir path) w) keeps h)
