-- ===== src/Tests/Waiting.antt =====
-- Tests of the scheduler and of health checks: "a" is passive, and the active "b" is silent.
use pulseha.Base.{
  [], true, ◌∷◌, ℕ, false, ◌≡◌, ◌≤◌, ◌+◌, ◌*◌, ◌⊎◌, ◌&&◌, ltb, refl, arith, inl, inr, Bool-cases,
}
use pulseha.Base.Int.{ltb_ℤ, div_pos, pos, ℤ}
use pulseha.Config.{cluster_check}
use pulseha.Exec.{returned}
use pulseha.World.{World, Env, Status, PluginType, store}
use pulseha.Failover.{seconds_since, monitor_received}
use pulseha.Failover.Watch.{patience}
use pulseha.Failover.Accession.{IsTakenOver}
use pulseha.Scheduler.{schedule, ticks}
use pulseha.Scheduler.Ending.{IsDue, schedule-IsTakenOver}
use pulseha.Tests.{node_a, pair, calm, daemon, calm-CanDial}
use pulseha.Member.{plugins_of, is_health_check}
use pulseha.HealthCheck.{process_hcs}
use pulseha.HealthCheck.Scoring.{passed, all_weights, process_hcs-passed}
use pulseha.Tests.Roles.{a_local, silent, silent-IsCovered, a_only, a_watches, daemon-IsReachable}

-- A tick takes five seconds.
abbrev slow : Env
slow = record calm { now = λ t. 5000000000 + 5000000000 * ticks t }

long_since :
    (n : ℕ)
    → 4 ≤ n
    → (limit : ℤ) → (limit ≡ pos 10000) ⊎ (limit ≡ pos 20000)
    → ltb_ℤ (seconds_since (5000000000 + 5000000000 * n) 2000000000) (div_pos limit 1000) ≡ false
long_since n enough limit (inl e) = rw e (ground (arith, enough))
long_since n enough limit (inr e) = rw e (ground (arith, enough))

silent_patience :
    (s : World) → s.config ≡ pair → (patience s ≡ pos 10000) ⊎ (patience s ≡ pos 20000)
silent_patience s same = elim (Bool-cases (s.start_delay && ltb s.start_interval 1)) [
  | inl first ↦ inr (rw (first, same) refl)
  | inr later ↦ inl (rw (later, same) refl)
]

silent_due : IsDue slow 0 silent 0 (a_watches Status.passive) 4
unfolding ticks
silent_due s same response passed =
    rw response (long_since (ticks s.trace) passed (patience s) (silent_patience s same))

schedule-IsTakenOver_example : IsTakenOver silent 0 (schedule 5 (monitor_received slow 0) silent)
schedule-IsTakenOver_example =
    schedule-IsTakenOver slow 0 silent 0 (a_watches Status.passive) 4 calm-CanDial 5 refl
      (daemon-IsReachable Status.passive Status.active) silent-IsCovered a_only silent_due
      (omega arith)

-- A health check of weight ten.
abbrev checked : World
checked = record (daemon Status.passive Status.active) {
  modules =
      record { name = "PingHC"; plugin_type = PluginType.health_check_plugin; weight = pos 10 }
      ∷ [];
}

checked_clustered : cluster_check checked.config ≡ true
unfolding cluster_check
checked_clustered = refl

process_hcs_example : process_hcs calm checked ≡ (
  returned false,
  store 0
      (λ m. record m {
        score = pos (passed (calm.check_health []) (plugins_of is_health_check checked.modules));
      })
      checked,
)
unfolding all_weights
process_hcs_example =
    process_hcs-passed calm checked 0
      (record {
        node = node_a;
        free = refl;
        clustered = checked_clustered;
        local = a_local;
        found = refl;
      })
      refl (refl, tt) (omega arith)

score_of_ten : passed (calm.check_health []) (plugins_of is_health_check checked.modules) ≡ 10
unfolding passed
score_of_ten = refl
