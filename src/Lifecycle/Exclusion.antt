-- ===== src/Lifecycle/Exclusion.antt =====
-- At most one process is between getting the lock and closing it, and the PID file names the daemon
-- that runs.
use herdr_tokens.Prelude.{ℕ, Bool, true, false, Option, none, some, ◌≡◌, refl, nat_eq, arith}
use herdr_tokens.Lifecycle.{
  Phase, State, Step, Reachable, daemon_locked, daemon_running, daemon_clearing, start_locked,
  stop_locked, begins, acquires, is_refused, writes_pid, removes_pid, leaves_pid, closes, spawns,
  gives_up, reads_pid, finds_no_pid, signals, fails_to_signal, dies, at_first,
}

abbrev pub holds : Phase → Bool
holds daemon_locked = true
holds daemon_running = true
holds daemon_clearing = true
holds start_locked = true
holds stop_locked = true
holds _ = false

abbrev names : ℕ → Option ℕ → Bool
names p none = false
names p (some q) = nat_eq q p

-- Of a process: it holds the lock exactly if the lock names it, and the PID file names it if it runs.
abbrev InOrder : State → ℕ → Type 0
InOrder s p =
    (holds (s.phase p) ≡ names p s.holder)
    × (s.phase p ≡ daemon_running → names p s.pid_file ≡ true)

Step-InOrder : (s s' : State) → ((p : ℕ) → InOrder s p) → Step s s' → (q : ℕ) → InOrder s' q
Step-InOrder s s' inv (begins p there h e) q = ground (arith, inv p, inv q)
Step-InOrder s s' inv (acquires p there h e) q = ground (arith, inv p, inv q)
Step-InOrder s s' inv (is_refused p r there h e) q = ground (arith, inv p, inv q)
Step-InOrder s s' inv (writes_pid p h) q = ground (arith, inv p, inv q)
Step-InOrder s s' inv (removes_pid p h) q = ground (arith, inv p, inv q)
Step-InOrder s s' inv (leaves_pid p h) q = ground (arith, inv p, inv q)
Step-InOrder s s' inv (closes p there h) q = ground (arith, inv p, inv q)
Step-InOrder s s' inv (spawns p r h e) q = ground (arith, inv p, inv q, inv r)
Step-InOrder s s' inv (gives_up p h) q = ground (arith, inv p, inv q)
Step-InOrder s s' inv (reads_pid p t h e) q = ground (arith, inv p, inv q)
Step-InOrder s s' inv (finds_no_pid p h e) q = ground (arith, inv p, inv q)
Step-InOrder s s' inv (signals p t h) q = ground (arith, inv p, inv q)
Step-InOrder s s' inv (fails_to_signal p t h) q = ground (arith, inv p, inv q)
Step-InOrder s s' inv (dies p) q = ground (arith, inv p, inv q)

Reachable-InOrder :
    (left_over : Option ℕ) (s : State) → Reachable left_over s → (p : ℕ) → InOrder s p
Reachable-InOrder left_over s at_first p = (refl, λ h. cc)
Reachable-InOrder left_over s (Reachable.then r s' reach step) p =
    Step-InOrder r s (Reachable-InOrder left_over r reach) step p

-- In every interleaving of daemons, starts, stops and deaths, two processes that are between getting
-- the lock and closing it are one: at most one daemon runs.
pub Reachable-exclusion :
    (left_over : Option ℕ) (s : State) (p q : ℕ)
    → Reachable left_over s
    → holds (s.phase p) ≡ true
    → holds (s.phase q) ≡ true
    → p ≡ q
Reachable-exclusion left_over s p q reach hp hq =
    ground (arith, Reachable-InOrder left_over s reach p, Reachable-InOrder left_over s reach q)

-- In every interleaving, the PID file names the daemon that runs, if one does.
pub Reachable-pid :
    (left_over : Option ℕ) (s : State) (p : ℕ)
    → Reachable left_over s
    → s.phase p ≡ daemon_running
    → s.pid_file ≡ some p
Reachable-pid left_over s p reach h = ground (arith, Reachable-InOrder left_over s reach p)
