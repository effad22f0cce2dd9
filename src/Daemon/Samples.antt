-- ===== src/Daemon/Samples.antt =====
-- A run of the loop, and its theorems at concrete turns.
use herdr_tokens.Prelude.{◌*◌, false, [], ◌∷◌, ◌++◌, map, ◌≡◌, refl}
use herdr_tokens.Prelude.Int.{pos, wrap64, scale}
use herdr_tokens.Config.{default, second}
use herdr_tokens.Derive.Samples.{office, lab, staff}
use herdr_tokens.Controller.Tracking.{IsTracking}
use herdr_tokens.Controller.Calls.{scripted, call_of}
use herdr_tokens.Controller.Samples.{both, lab_fails, two_ids-Distinct}
use herdr_tokens.Daemon.{
  failed, got, Turn, next_backoff, round, rounds, run, default_base_backoff, default_max_backoff,
}
use herdr_tokens.Daemon.Rounds.{run-IsTracking, recovery}

abbrev lost : Turn
lost = record { attempt = failed; stopped = false }

abbrev seen : Turn
seen = record { attempt = got both (pos second); stopped = false }

-- Five failures: 250ms, 500ms, 1s, 2s, 4s, and then the cap.
five_failures :
    (run
      (scripted lab_fails)
      default_base_backoff
      default_max_backoff
      default
      []
      (lost ∷ lost ∷ lost ∷ lost ∷ lost ∷ [])).1.backoff
    ≡ pos (5 * second)
unfolding run rounds round next_backoff wrap64 scale
five_failures = refl

run-IsTracking_example :
    IsTracking
      (run
        (scripted lab_fails)
        default_base_backoff
        default_max_backoff
        default
        []
        (seen ∷ lost ∷ [])).1.ctrl
      (office ∷ lab ∷ [])
run-IsTracking_example =
    run-IsTracking (scripted lab_fails) default_base_backoff default_max_backoff default []
      (seen ∷ lost ∷ []) (refl, (refl, tt))

recovery_example :
    (run
      (scripted lab_fails)
      default_base_backoff
      default_max_backoff
      default
      []
      ((seen ∷ []) ++ lost ∷ seen ∷ [])).1.world
    ≡ (run
        (scripted lab_fails)
        default_base_backoff
        default_max_backoff
        default
        []
        (seen ∷ [])).1.world
      ++ map (call_of lab_fails default staff (pos second)) (office ∷ lab ∷ [])
recovery_example =
    recovery lab_fails default_base_backoff default_max_backoff default [] (seen ∷ []) both
      (pos second) (refl, tt) two_ids-Distinct
