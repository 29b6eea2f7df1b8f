-- ===== src/Scheduler.antt =====
-- Scheduler of packages/utils/utils.go, which runs the rounds of MonitorReceivedHCs, MonitorClientConns,
-- AddHealthCheckHandler and ProcessHCs.
pub mod Ending
use pulseha.Base.{ℕ, zero, suc, ◌+◌, [], ◌∷◌, Bool, true, false, if◌then◌else◌}
use pulseha.Exec.{pure, modify, ◌>>=◌, ◌>>◌}
use pulseha.World.{Daemon, Trace, ticked, log_event}

-- Scheduler for `n` ticks: true once a round has ended the routine.
unfoldable pub schedule : ℕ → Daemon Bool → Daemon Bool
schedule zero method = pure false
schedule (suc n) method =
    let rest = schedule n method in
    do modify (log_event ticked); end ← method; if end then pure true else rest

-- How often a scheduler has ticked.
unfoldable pub ticks : Trace → ℕ
ticks [] = 0
ticks (ticked ∷ t) = suc (ticks t)
ticks (e ∷ t) = ticks t
