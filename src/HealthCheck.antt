-- ===== src/HealthCheck.antt =====
-- The routines of the active node: MonitorClientConns of src/pulseha/member_list.go, SendHealthCheck and
-- RoutineHC of src/pulseha/member.go; and ProcessHCs of src/pulseha/healthcheck_list.go.
pub mod Connections
pub mod Marking
pub mod Scoring
use pulseha.Base.{
  ℕ, String, List, [], ◌∷◌, Bool, true, false, not, ◌||◌, Option, none, some, str_eq, if◌then◌else◌,
  is_some,
}
use pulseha.Base.Int.{ℤ, pos, add_int64}
use pulseha.Exec.{Exec, pure, panic, gets, skip, deref, ◌>>=◌, ◌>>◌}
use pulseha.Config.{Error, cluster_check}
use pulseha.World.{
  World, Env, Daemon, Member, Status, ConnState, LogLevel, Plugin, Request, MemberlistMember, Trace,
}
use pulseha.Member.{
  is_health_check, plugins_of, set_status, set_score, set_hc_busy, set_latency,
  set_last_hc_response, connect, send, close, log,
}
use pulseha.MemberList.{is_passive, get_local_member}

-- The weights of the health checks that succeed, added up from `score`.
unfoldable pub score_from : (Plugin → Bool) → ℤ → List Plugin → ℤ
score_from healthy score [] = score
score_from healthy score (p ∷ ps) =
    let counted = score_from healthy (add_int64 score p.weight) ps in
    let skipped = score_from healthy score ps in if healthy p then counted else skipped

module _ (env : Env) where
  -- What the state of a connection says of the member's status.
  mark : ℕ → ConnState → Daemon Unit
  mark p ConnState.idle = skip
  mark p ConnState.ready = set_status p Status.passive
  mark p ConnState.connecting = set_status p Status.unavailable
  mark p ConnState.transient_failure = set_status p Status.unavailable
  mark p ConnState.shutdown = set_status p Status.unavailable

  -- GetState panics on the nil connection that a failed dial leaves.
  after_connect : ℕ → Daemon Bool → Error → Daemon Bool
  unfolding mark
  after_connect p rest (some e) = do log env LogLevel.error e; pure false
  after_connect p rest none = do
    c ← (λ w. deref (w.heap p).client w)
    s ← gets (λ w. env.conn_state w.trace p)
    if c.connection then (do mark p s; rest) else panic

  -- The loop of MonitorClientConns, which a failed connection ends.
  conns_loop : String → List ℕ → Daemon Bool
  unfolding after_connect
  conns_loop own [] = pure false
  conns_loop own (p ∷ ps) = do
    host ← gets (λ w. (w.heap p).hostname)
    let rest = conns_loop own ps
    if str_eq host own then rest else (do e ← connect env p; after_connect p rest e)

  monitor_local : ℕ × Error → Daemon Bool
  unfolding conns_loop
  monitor_local (l, some e) = pure true
  monitor_local (l, none) = do
    m ← gets (λ w. w.heap l)
    ps ← gets (λ w. w.members)
    if is_passive m.status then pure true else conns_loop m.hostname ps

  -- MonitorClientConns: true ends the routine.
  unfoldable pub monitor_conns : Daemon Bool
  unfolding monitor_local
  monitor_conns = do
    clustered ← gets (λ w. cluster_check w.config)
    if not clustered then pure true else (do l ← get_local_member env; monitor_local l)

  hang_up : ℕ → Error → Daemon Unit
  hang_up p none = skip
  hang_up p (some e) = do close env p; set_status p Status.unavailable

  -- SendHealthCheck over a connection: the score that came back, unless there was an error.
  exchange_health : ℕ → List MemberlistMember → Daemon Unit
  unfolding hang_up
  exchange_health p ms = do
    score ← gets (λ w. env.health_score w.trace p)
    e ← send env p (Request.health_check ms)
    now ← gets (λ w. env.now w.trace)
    set_last_hc_response p now
    took ← gets (λ w. env.round_trip w.trace)
    set_latency p took
    hang_up p e
    if is_some e then skip else set_score p score
    set_hc_busy p false

  -- RoutineHC: without a connection SendHealthCheck answers with a struct, and the assertion that it is a
  -- pointer fails.
  unfoldable pub routine_hc : ℕ → List MemberlistMember → Daemon Unit
  unfolding exchange_health hang_up
  routine_hc p ms = do
    set_hc_busy p true
    c ← (λ w. deref (w.heap p).client w)
    if c.connection then exchange_health p ms else (do
      hang_up p (some "unable to send health check as member connection has not been initiated")
      panic)

  -- ProcessHCs: true ends the routine. Without a local member the score goes to a new object.
  unfoldable pub process_hcs : Daemon Bool
  unfolding score_from
  process_hcs = do
    clustered ← gets (λ w. cluster_check w.config)
    starting ← gets (λ w. w.start_delay)
    score ←
        gets (λ w.
          score_from (env.check_health w.trace) (pos 0) (plugins_of is_health_check w.modules))
    if starting || not clustered
        then pure (not clustered)
        else (do l ← get_local_member env; set_score l.0 score; pure false)
