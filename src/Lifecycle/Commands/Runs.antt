-- ===== src/Lifecycle/Commands/Runs.antt =====
-- Any command, uninterrupted.
use herdr_tokens.Prelude.{ℕ, String, ◌==◌, List, [], ◌∷◌, ◌≡◌, refl, Bool-cases, inl, inr}
use herdr_tokens.Prelude.Result.{Result, ok, err}
use herdr_tokens.Config.{Config, ConfigError}
use herdr_tokens.Process.{ProcessError}
use herdr_tokens.Client.{CallError}
use herdr_tokens.Wire.{Snapshot}
use herdr_tokens.Cli.{
  Answers, config_path, dispatch, previewed, preview_on, preview_with, config_checked, main, start,
  stop, run_daemon, preview,
}
use herdr_tokens.Lifecycle.{State, idle}
use herdr_tokens.Lifecycle.Commands.{Replays, Agrees, says}
use herdr_tokens.Lifecycle.Commands.Daemon.{daemon_with-Replays}
use herdr_tokens.Lifecycle.Commands.Start.{start_on-Replays}
use herdr_tokens.Lifecycle.Commands.Stop.{stop_on-Replays}

module _ (p : ℕ) (s : State) (fresh : s.phase p ≡ idle) where
  config_checked-Replays :
      (a : Answers) (cfg : Result ConfigError Config) → Replays p s (config_checked a cfg).1
  config_checked-Replays a (err e) = says p s fresh _ refl refl refl refl
  config_checked-Replays a (ok cfg) = says p s fresh _ refl refl refl refl

  previewed-Replays :
      (a : Answers) (cfg : Config) (snap : Result CallError Snapshot)
      → Replays p s (previewed a cfg snap).1
  previewed-Replays a cfg (err e) = says p s fresh _ refl refl refl refl
  previewed-Replays a cfg (ok snap) = says p s fresh _ refl refl refl refl

  preview_on-Replays :
      (a : Answers) (cfg : Config) (sock : Result ProcessError String)
      → Replays p s (preview_on a cfg sock).1
  preview_on-Replays a cfg (err e) = says p s fresh _ refl refl refl refl
  preview_on-Replays a cfg (ok sock) = previewed-Replays a cfg (a.snapshot sock)

  preview_with-Replays :
      (a : Answers) (cfg : Result ConfigError Config) → Replays p s (preview_with a cfg).1
  preview_with-Replays a (err e) = says p s fresh _ refl refl refl refl
  preview_with-Replays a (ok cfg) = preview_on-Replays a cfg a.socket

  preview-Replays : (a : Answers) → Replays p s (preview a).1
  unfolding preview
  preview-Replays a = preview_with-Replays a (a.load_config (config_path a))

  dispatch-Replays : (a : Answers) (cmd : String) → Agrees a p s → Replays p s (dispatch a cmd).1
  unfolding run_daemon start stop
  dispatch-Replays a cmd agrees = elim (Bool-cases (cmd == "version")) [
    | inl e ↦ rw (e, dispatch) (says p s fresh _ refl refl refl refl)
    | inr n0 ↦ elim (Bool-cases (cmd == "validate-config")) [
      | inl e ↦ rw (n0, e, dispatch) (config_checked-Replays a (a.load_config (config_path a)))
      | inr n1 ↦ elim (Bool-cases (cmd == "preview")) [
        | inl e ↦ rw (n0, n1, e, dispatch) (preview-Replays a)
        | inr n2 ↦ elim (Bool-cases (cmd == "daemon")) [
          | inl e ↦
              rw (n0, n1, n2, e, dispatch)
                (daemon_with-Replays p s fresh a agrees (a.load_config (config_path a)))
          | inr n3 ↦ elim (Bool-cases (cmd == "start")) [
            | inl e ↦
                rw (n0, n1, n2, n3, e, dispatch) (start_on-Replays p s fresh a agrees a.socket)
            | inr n4 ↦ elim (Bool-cases (cmd == "stop")) [
              | inl e ↦
                  rw (n0, n1, n2, n3, n4, e, dispatch) (stop_on-Replays p s fresh a agrees a.socket)
              | inr n5 ↦
                  rw (n0, n1, n2, n3, n4, n5, dispatch) (says p s fresh _ refl refl refl refl)
            ]
          ]
        ]
      ]
    ]
  ]

-- A run of any command that no other process interrupts, by a new process and with answers that say
-- what the state says of the lock and of the PID file, is a path of the steps of several processes
-- that take and close the lock, write and remove the PID file, signal a process and start a child just
-- as the run's events do and in their order: it leaves the lock and the PID file as its events say, the child that it started before its look at
-- the lock, itself gone, and every other process where it was.
pub main-Replays :
    (a : Answers) (args : List String) (p : ℕ) (s : State)
    → s.phase p ≡ idle
    → Agrees a p s
    → Replays p s (main a args).1
unfolding main
main-Replays a [] p s fresh agrees = says p s fresh _ refl refl refl refl
main-Replays a (cmd ∷ rest) p s fresh agrees = dispatch-Replays p s fresh a cmd agrees
