-- ===== src/Process/Samples.antt =====
-- The process's files on a system in memory, and the theorems about them.
use herdr_tokens.Prelude.{
  ◌≢◌, ◌<◌, ◌||◌, false, All, length, codes, eq_iff, ap, Bool-cases, inl, inr, ℕ, String, ◌==◌,
  ◌+++◌, Option, none, some, List, [], ◌∷◌, ◌≡◌, refl, if◌then◌else◌, arith,
}
use text.Mathlib.TextLemmas.{append_cancel_left}
use text.Mathlib.TextPositions.{eq_refl}
use herdr_tokens.Prelude.Int.{pos}
use herdr_tokens.Prelude.Result.{Result, ok, err}
use herdr_tokens.Dict.{Dict, lookup, insert}
use herdr_tokens.Dict.Laws.{lookup-insert}
use herdr_tokens.Decimal.{atoi}
use herdr_tokens.Process.{
  System, locked, would_block, state_file, write_pid, read_pid, first_bytes, acquire_lock,
  already_running, held, not_a_number,
}
use herdr_tokens.Process.Pid.{KeepsFiles, read_pid-write_pid}
use herdr_tokens.Process.Names.{IsDigest, KeepsNames, state_file-separate}

abbrev contents_of : Option String → Result String String
contents_of none = err "no such file"
contents_of (some s) = ok s

-- The files, and the locks that are held.
abbrev pub Disk : Type 0
Disk = Dict String

abbrev digest : String → List ℕ
digest s =
    if s == "/run/a"
    then 10 ∷ 11 ∷ 0 ∷ 0 ∷ 0 ∷ 0 ∷ 0 ∷ 255 ∷ []
    else 1 ∷ 2 ∷ 3 ∷ 4 ∷ 5 ∷ 6 ∷ 7 ∷ 8 ∷ []

abbrev pub in_memory : System Disk
in_memory = record {
  clean = λ s. s;
  join = λ d s. d +++ s;
  dir = λ s. s;
  sha256 = digest;
  getenv = λ k. if k == "HERDR_SOCKET_PATH" then "/run/a" else "";
  home_dir = err "no home";
  stat = λ p w. none;
  mkdir_all = λ p w. (none, w);
  write_file = λ p s w. (none, insert p s w);
  read_file = λ p w. contents_of (lookup p w);
  open_rw = λ p w. (none, w);
  flock =
      λ p w. elim (lookup p w) [ none ↦ (locked, insert p "locked" w) | some _ ↦ (would_block, w) ];
}

in_memory-KeepsFiles : KeepsFiles in_memory
in_memory-KeepsFiles path s w h = rw (lookup-insert path path s w) (rw (eq_refl path) refl)

names : state_file in_memory "/tmp/" "/run/a" "daemon.pid" ≡ "/tmp/0a0b0000000000ff-daemon.pid"
unfolding state_file
names = refl

-- The lock is taken once.
locks :
    ((acquire_lock in_memory "l" []).0 ≡ held "l")
    × ((acquire_lock in_memory "l" (acquire_lock in_memory "l" []).1).0 ≡ already_running)
unfolding acquire_lock lookup insert
locks = (refl, refl)

readings :
    (read_pid in_memory "p" (("p", " 12\n") ∷ []) ≡ ok (pos 12))
    × (read_pid in_memory "p" (("p", "x") ∷ []) ≡ err (not_a_number "x"))
unfolding read_pid lookup atoi
readings = (refl, refl)

read_pid-write_pid_example :
    read_pid in_memory "p" (write_pid in_memory "p" 4711 []).1 ≡ ok (pos 4711)
unfolding write_pid
read_pid-write_pid_example =
    read_pid-write_pid in_memory "p" 4711 [] in_memory-KeepsFiles (omega arith) refl

-- A system that knows a second spelling of the socket's path, and the two names of directories.
abbrev joined : String → String → String
joined d s = if s == "" || s == "." then d else d +++ ("/" +++ s)

abbrev spelled : System Disk
spelled = record in_memory { clean = λ s. if s == "/run/./a" then "/run/a" else s; join = joined }

long-IsNoDirectory : (s : String) → 2 < length (codes s) → (s == "" || s == ".") ≡ false
long-IsNoDirectory s h = elim (Bool-cases (s == "")) [
  | inl e ↦ absurd (omega (arith, ap (λ s. length (codes s)) ((eq_iff s "").0 e)))
  | inr n0 ↦ elim (Bool-cases (s == ".")) [
    | inl e ↦ absurd (omega (arith, ap (λ s. length (codes s)) ((eq_iff s ".").0 e)))
    | inr n1 ↦ rw (n0, n1) refl
  ]
]

spelled-KeepsNames : KeepsNames spelled
spelled-KeepsNames d s t (_, ls) (_, lt) h =
    let plain : d +++ ("/" +++ s) ≡ d +++ ("/" +++ t) =
      rw (long-IsNoDirectory s ls, long-IsNoDirectory t lt) at h in
    append_cancel_left "/" s t (append_cancel_left d ("/" +++ s) ("/" +++ t) plain)

same_file :
    state_file spelled "/tmp" "/run/a" "daemon.pid"
    ≡ state_file spelled "/tmp" "/run/./a" "daemon.pid"
unfolding state_file
same_file = refl

digest-IsDigest : IsDigest (digest "/run/a")
digest-IsDigest = (
  (
    omega arith,
    (
      omega arith,
      (omega arith, (omega arith, (omega arith, (omega arith, (omega arith, (omega arith, tt)))))),
    ),
  ),
  omega arith,
)

pid_name-plain : All (λ c. c ≢ 47) (codes "daemon.pid")
pid_name-plain = ground arith

state_file-separate_example :
    (◌≡◌ {A = String} "daemon.pid" "daemon.pid")
    × (first_bytes 8 (digest "/run/a") ≡ first_bytes 8 (digest "/run/a"))
state_file-separate_example =
    state_file-separate spelled "/tmp" "/run/a" "daemon.pid" "/run/./a" "daemon.pid"
      spelled-KeepsNames pid_name-plain pid_name-plain digest-IsDigest digest-IsDigest same_file
