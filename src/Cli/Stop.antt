-- ===== src/Cli/Stop.antt =====
-- When `stop` signals a process, and which.
use herdr_tokens.Prelude.{String, Bool, true, false, Option, none, ◌≡◌, ◌↔◌, refl, arith, any}
use herdr_tokens.Prelude.Int.{ℤ}
use herdr_tokens.Prelude.Result.{OkThen, OkThen_iff}
use herdr_tokens.Process.{Lock, held, already_running, lock_failed}
use herdr_tokens.Cli.{
  Answers, Outcome, stop, stop_on, stop_locked, stop_pid, stop_found, file_of, signalled,
}

abbrev pub signals : Outcome → Bool
signals (code, events) = any (λ e. elim e [ signalled pid ↦ true | _ ↦ false ]) events

-- What has to be so for `stop` to signal: the lock is held by another process, and the process that
-- the PID file names is there and takes the signal.
abbrev pub Signals : Answers → String → Type 0
Signals a sock =
    (a.lock (file_of a sock "daemon.lock") ≡ already_running)
    × OkThen (a.read_pid (file_of a sock "daemon.pid"))
        (λ pid. (a.find_process pid ≡ none) × (a.signal pid ≡ none))

module _ (a : Answers) where
  stop_found_iff :
      (pid : ℤ) (o : Option String)
      → (signals (stop_found a pid o) ≡ true) ↔ ((o ≡ none) × (a.signal pid ≡ none))
  stop_found_iff pid o = ground arith

  stop_locked_iff :
      (sock : String) (l : Lock)
      → (signals (stop_locked a sock l) ≡ true) ↔ (
          (l ≡ already_running)
          × OkThen
              (a.read_pid (file_of a sock "daemon.pid"))
              (λ pid. (a.find_process pid ≡ none) × (a.signal pid ≡ none)))
  stop_locked_iff sock already_running =
      let (to, from) =
        OkThen_iff (λ r. signals (stop_pid a r)) (a.read_pid (file_of a sock "daemon.pid"))
          (λ e. refl) (λ pid. stop_found_iff pid (a.find_process pid)) in
      ((λ h. (refl, to h)), λ (_, h). from h)
  stop_locked_iff sock (held path) = ((λ h. cc), λ (h, _). cc)
  stop_locked_iff sock (lock_failed e) = ((λ h. cc), λ (h, _). cc)

-- `stop` signals a process exactly if the socket's path is known, another process holds the lock,
-- and the PID file can be read and names a process that is found and takes the signal.
pub stop-signals_iff : (a : Answers) → (signals (stop a) ≡ true) ↔ OkThen a.socket (Signals a)
unfolding stop
stop-signals_iff a =
    OkThen_iff (λ r. signals (stop_on a r)) a.socket (λ e. refl)
      λ sock. stop_locked_iff a sock (a.lock (file_of a sock "daemon.lock"))
