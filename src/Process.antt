-- ===== src/Process.antt =====
-- internal/daemon/daemon.go, the process's files: their names, the PID file, the socket's path and
-- the lock. The operating system and the libraries `crypto/sha256` and `path/filepath` are the
-- fields of `System`, over a `World` that each operation with an effect takes and gives.
pub mod Names
pub mod Pid
pub mod Samples
use herdr_tokens.Prelude.{
  ℕ, zero, suc, ◌/◌, ◌%◌, String, ◌==◌, ◌+++◌, codes, Bool, true, false, not, ◌&&◌, ◌||◌, Option,
  none, some, List, [], ◌∷◌, nat_eq, leb, any, if◌then◌else◌,
}
use herdr_tokens.Prelude.Int.{ℤ}
use herdr_tokens.Prelude.Result.{Result, ok, err}
use herdr_tokens.Decimal.{itoa, atoi}

-- What `flock(LOCK_EX|LOCK_NB)` says.
pub data Flock : Type 0 where
  locked would_block : Flock
  flock_failed : String → Flock

pub record System (World : Type 0) : Type 0 where
  pub clean : String → String
  pub join : String → String → String
  pub dir : String → String
  -- the bytes of the digest
  pub sha256 : String → List ℕ
  pub getenv : String → String
  pub home_dir : Result String String
  pub stat : String → World → Option String
  pub mkdir_all : String → World → Option String × World
  pub write_file : String → String → World → Option String × World
  pub read_file : String → World → Result String String
  pub open_rw : String → World → Option String × World
  pub flock : String → World → Flock × World

pick_hex : List String → ℕ → String
pick_hex [] n = ""
pick_hex (s ∷ ss) zero = s
pick_hex (s ∷ ss) (suc n) = pick_hex ss n

unfoldable pub hex_digit : ℕ → String
unfolding pick_hex
hex_digit = pick_hex (
    "0" ∷ "1" ∷ "2" ∷ "3" ∷ "4" ∷ "5" ∷ "6" ∷ "7" ∷ "8" ∷ "9" ∷ "a" ∷ "b" ∷ "c" ∷ "d" ∷ "e" ∷ "f"
    ∷ [])

-- `hex.EncodeToString` of bytes
unfoldable pub hex_encode : List ℕ → String
unfolding hex_digit
hex_encode [] = ""
hex_encode (b ∷ bs) = hex_digit (b / 16) +++ (hex_digit (b % 16) +++ hex_encode bs)

-- `sum[:n]`
abbrev pub first_bytes : ℕ → List ℕ → List ℕ
first_bytes zero bs = []
first_bytes (suc n) [] = []
first_bytes (suc n) (b ∷ bs) = b ∷ first_bytes n bs

-- `unicode.IsSpace`
abbrev pub is_space : ℕ → Bool
is_space c =
    any (λ s. nat_eq s c)
      (9 ∷ 10 ∷ 11 ∷ 12 ∷ 13 ∷ 32 ∷ 133 ∷ 160 ∷ 5760 ∷ 8232 ∷ 8233 ∷ 8239 ∷ 8287 ∷ 12288 ∷ [])
    || (leb 8192 c && leb c 8202)

unfoldable pub trim_left : List ℕ → List ℕ
trim_left [] = []
trim_left (c ∷ s) = let rest = trim_left s in if is_space c then rest else c ∷ s

abbrev pub unless_blank : ℕ → List ℕ → List ℕ
unless_blank c [] = if is_space c then [] else c ∷ []
unless_blank c (d ∷ s) = c ∷ d ∷ s

unfoldable pub trim_right : List ℕ → List ℕ
trim_right [] = []
trim_right (c ∷ s) = unless_blank c (trim_right s)

-- `strings.TrimSpace`
unfoldable pub trim_space : List ℕ → List ℕ
unfolding trim_left trim_right
trim_space s = trim_right (trim_left s)

pub data ProcessError : Type 0 where
  os_error : String → ProcessError
  not_a_number : String → ProcessError
  socket_missing : String → String → ProcessError

-- `AcquireLock`: the open file that holds the lock, or why there is none.
pub data Lock : Type 0 where
  held : String → Lock
  already_running : Lock
  lock_failed : String → Lock

module _ {World : Type 0} (sys : System World) where
  -- `StateFile`
  unfoldable pub state_file : String → String → String → String
  unfolding hex_encode
  state_file state_dir socket name =
      sys.join state_dir
        (hex_encode (first_bytes 8 (sys.sha256 (sys.clean socket))) +++ ("-" +++ name))

  abbrev pub after_mkdir : String → ℕ → Option String × World → Option String × World
  after_mkdir path pid (some e, w) = (some e, w)
  after_mkdir path pid (none, w) = sys.write_file path (itoa pid) w

  -- `WritePID`, with what `os.Getpid()` gives
  unfoldable pub write_pid : String → ℕ → World → Option String × World
  write_pid path pid w = after_mkdir path pid (sys.mkdir_all (sys.dir path) w)

  abbrev pub parsed_pid : Result String String → Result ProcessError ℤ
  parsed_pid (err e) = err (os_error e)
  parsed_pid (ok b) = elim (atoi (trim_space (codes b))) [
    | none ↦ err (not_a_number b)
    | some pid ↦ ok pid
  ]

  -- `ReadPID`
  unfoldable pub read_pid : String → World → Result ProcessError ℤ
  unfolding trim_space
  read_pid path w = parsed_pid (sys.read_file path w)

  abbrev default_socket : World → Result String String → Result ProcessError String
  default_socket w (err e) = err (os_error e)
  default_socket w (ok home) =
      let p = sys.join (sys.join (sys.join home ".config") "herdr") "herdr.sock" in
      elim (sys.stat p w) [ some e ↦ err (socket_missing p e) | none ↦ ok p ]

  -- `SocketPath`
  unfoldable pub socket_path : World → Result ProcessError String
  socket_path w =
      let s = sys.getenv "HERDR_SOCKET_PATH" in
      if s == "" then default_socket w sys.home_dir else ok s

  abbrev flocked : String → Flock × World → Lock × World
  flocked path (locked, w) = (held path, w)
  flocked path (would_block, w) = (already_running, w)
  flocked path (flock_failed e, w) = (lock_failed e, w)

  abbrev opened : String → Option String × World → Lock × World
  opened path (some e, w) = (lock_failed e, w)
  opened path (none, w) = flocked path (sys.flock path w)

  abbrev with_dir : String → Option String × World → Lock × World
  with_dir path (some e, w) = (lock_failed e, w)
  with_dir path (none, w) = opened path (sys.open_rw path w)

  -- `AcquireLock`
  unfoldable pub acquire_lock : String → World → Lock × World
  acquire_lock path w = with_dir path (sys.mkdir_all (sys.dir path) w)
