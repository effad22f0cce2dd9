-- ===== src/Daemon/Backoff.antt =====
-- The delays between failed snapshot attempts.
use herdr_tokens.Prelude.{ℕ, suc, List, [], ◌∷◌}
use herdr_tokens.Config.{Config}
use herdr_tokens.Daemon.{failed, got, Turn}

-- The failures since the last success, after `k` of them before the turns.
abbrev pub streak : ℕ → List Turn → ℕ
streak k [] = k
streak k (turn ∷ turns) = streak (elim turn.attempt [ failed ↦ suc k | got _ _ ↦ 0 ]) turns
