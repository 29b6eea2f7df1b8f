-- ===== src/Failover.antt =====
-- Roles: MakeActive, MakePassive and MonitorReceivedHCs of src/pulseha/member.go; PromoteMember and the
-- choice of the next active member of src/pulseha/member_list.go.
pub mod Election
pub mod Promotion
pub mod Takeover
pub mod Watch
pub mod Stage
pub mod Accession
pub mod Deadline
pub mod Race
use Prim.Native.Nat.{min}
use pulseha.Base.{
  ℕ, suc, ◌+◌, ◌-◌, ◌/◌, ◌%◌, ◌^◌, String, List, [], ◌∷◌, Bool, true, false, not, ◌&&◌, ◌||◌,
  Option, none, some, str_eq, ◌==◌, ltb, leb, if◌then◌else◌, length, concat, is_some,
}
use pulseha.Base.Int.{ℤ, pos, negsuc, ltb_ℤ, eq_ℤ, add_int64, div_pos}
use pulseha.Exec.{Exec, pure, panic, gets, modify, skip, for_each, deref, ◌>>=◌, ◌>>◌}
use pulseha.Config.{Config, Node, Error, get_local_node, node_count, cluster_check}
use pulseha.World.{
  World, Env, Daemon, Member, Status, Event, Request, Routine, LogLevel, Plugin, Trace,
  monitor_client_conns, add_health_check_handler, monitor_received_hcs, spawned, informed_failover,
  log_event,
}
use pulseha.Member.{
  is_general, plugins_of, set_status, set_latency, set_last_hc_response, connect, send, log,
}
use pulseha.MemberList.{
  is_active, is_passive, get_active_member, get_member_by_hostname, get_local_member,
}
use pulseha.Network.{make_local_active, make_local_passive}

unfoldable pub inform_failover : List Plugin → Trace → Trace
inform_failover [] t = t
inform_failover (p ∷ ps) t = inform_failover ps (informed_failover p.name ∷ t)

abbrev pub is_unavailable : Status → Bool
is_unavailable Status.unavailable = true
is_unavailable _ = false

-- int(math.Floor(time.Since(t).Seconds())): a duration is an int64 of nanoseconds and saturates. The
-- seconds, a float64 in Go, are exact here.
abbrev pub seconds_since : ℕ → ℕ → ℤ
seconds_since now t =
    if leb t now
    then pos (min (now - t) (2 ^ 63 - 1) / 1000000000)
    else negsuc ((min (t - now) (2 ^ 63) - 1) / 1000000000)

module _ (env : Env) where
  spawn : Routine → Daemon Unit
  spawn r = modify (log_event (spawned r))

  -- Connect, then send: how a remote member is told its role.
  tell_connected : ℕ → Request → Error → Daemon Error
  tell_connected p r (some e) = pure (some e)
  tell_connected p r none = send env p r

  unfoldable pub tell : ℕ → Request → Daemon Error
  unfolding tell_connected
  tell p r = do e ← connect env p; tell_connected p r e

  become_active : ℕ → Daemon Error
  unfolding spawn
  become_active p = do
    set_latency p ""
    set_last_hc_response p 0
    set_status p Status.active
    make_local_active env
    spawn monitor_client_conns
    spawn add_health_check_handler
    pure none

  activate : ℕ → Node × Error → Daemon Error
  unfolding become_active tell
  activate p (n, some e) = pure (some "unable to retrieve local node configuration")
  activate p (n, none) = do
    host ← gets (λ w. (w.heap p).hostname)
    if str_eq host n.hostname then become_active p else tell p (Request.promote host)

  -- Member.MakeActive
  unfoldable pub make_active : ℕ → Daemon Error
  unfolding activate
  make_active p = do
    modify (λ w. record w { trace = inform_failover (plugins_of is_general w.modules) w.trace })
    l ← gets (λ w. get_local_node w.config)
    activate p l

  start_passive : ℕ → Daemon Unit
  unfolding spawn
  start_passive p = do set_status p Status.passive; spawn (monitor_received_hcs p)

  become_passive : ℕ → Daemon Error
  unfolding start_passive
  become_passive p = do
    make_local_passive env
    now ← gets (λ w. env.now w.trace)
    set_last_hc_response p now
    already ← gets (λ w. is_passive (w.heap p).status)
    if already then skip else start_passive p
    pure none

  deactivate : ℕ → Node × Error → Daemon Error
  unfolding become_passive tell
  deactivate p (n, some e) = pure (some "unable to retrieve local node configuration")
  deactivate p (n, none) = do
    host ← gets (λ w. (w.heap p).hostname)
    if str_eq host n.hostname then become_passive p else tell p (Request.make_passive host)

  -- Member.MakePassive
  unfoldable pub make_passive : ℕ → Daemon Error
  unfolding deactivate
  make_passive p = do l ← gets (λ w. get_local_node w.config); deactivate p l

  -- The loop of GetNextActiveMember: a node with no member is a panic.
  unfoldable pub next_loop : List (String × Node) → Daemon (Option ℕ)
  next_loop [] = pure none
  next_loop (e ∷ es) = do
    found ← get_member_by_hostname env e.1.hostname
    p ← deref found
    passive ← gets (λ w. is_passive (w.heap p).status)
    let rest = next_loop es
    if passive then pure (some p) else rest

  -- GetNextActiveMember: `none` stands for its error, with which comes an empty member.
  unfoldable pub get_next_active_member : Daemon (Option ℕ)
  unfolding next_loop
  get_next_active_member = do nodes ← gets (λ w. w.config.nodes.entries); next_loop nodes

  demote : Option ℕ → Daemon Unit
  demote none = skip
  demote (some a) = do
    e ← make_passive a
    host ← gets (λ w. (w.heap a).hostname)
    if is_some e
        then log env LogLevel.warning
            (concat ("Failed to make " ∷ host ∷ " passive, continuing" ∷ []))
        else skip
    set_status a Status.passive

  -- The promotion failed: the former active member, which may be nil, is made active again.
  fall_back : ℕ → Option ℕ → Daemon Unit
  fall_back p former = do
    a ← deref former
    host ← gets (λ w. (w.heap p).hostname)
    back ← gets (λ w. (w.heap a).hostname)
    log env LogLevel.warning
        (concat ("Failed to promote " ∷ host ∷ " to active. Falling back to " ∷ back ∷ []))
    e ← make_active a
    if is_some e
        then log env LogLevel.error
            "Failed to make reinstate the active node. Something is really wrong"
        else skip

  exchange : ℕ → Option ℕ → Daemon Error
  unfolding demote fall_back
  exchange p former = do
    demote former
    e ← make_active p
    if is_some e then fall_back p former else skip
    pure none

  refuse : String → String → Daemon Error
  refuse warning e = do log env LogLevel.warning warning; pure (some e)

  promote_found : String → Option ℕ → Daemon Error
  unfolding refuse exchange
  promote_found h none =
      refuse (concat ("Unknown hostname " ∷ h ∷ " give in call to promoteMember" ∷ []))
        "the specified host does not exist in the configured cluster"
  promote_found h (some p) = do
    m ← gets (λ w. w.heap p)
    count ← gets (λ w. node_count w.config)
    former ← gets (λ w. (get_active_member w).1)
    if is_unavailable m.status && ltb 1 count
        then refuse
            (concat ("Unable to promote member " ∷ m.hostname ∷ " because it is unavailable" ∷ []))
            "unable to promote member as it is unavailable"
        else if is_active m.status
        then refuse (concat ("Unable to promote member " ∷ m.hostname ∷ " as it is active" ∷ []))
            "unable to promote member as it is already active"
        else exchange p former

  -- PromoteMember
  unfoldable pub promote_member : String → Daemon Error
  unfolding promote_found
  promote_member h = do found ← get_member_by_hostname env h; promote_found h found

  -- MonitorReceivedHCs: a suspicion at every fourth second without a health check.
  abbrev pub is_suspicion_due : ℤ → Bool
  is_suspicion_due (pos n) = ltb 0 n && n % 4 == 0
  is_suspicion_due (negsuc n) = false

  pub suspect_if : Bool → Option ℕ → Daemon Unit
  suspect_if true (some a) = set_status a Status.suspicious
  suspect_if true none = skip
  suspect_if false found = skip

  suspect : ℤ → Daemon Unit
  unfolding suspect_if
  suspect elapsed = do
    found ← gets (λ w. (get_active_member w).1)
    suspect_if (is_suspicion_due elapsed) found

  -- The limit in milliseconds: twice the configured one at the first check after a start.
  pub fail_over_limit : Daemon ℤ
  fail_over_limit w =
      if w.start_delay && ltb w.start_interval 1
      then pure (add_int64 w.config.pulse.fail_over_limit w.config.pulse.fail_over_limit)
          (record w { start_interval = suc w.start_interval })
      else pure w.config.pulse.fail_over_limit (record w { start_delay = false })

  pub take_over : ℕ → ℕ → Node × Error → Daemon Bool
  take_over p next (n, some e) = do
    log env LogLevel.error "unable to retrieve local node configuration"
    pure false
  take_over p next (n, none) = do
    host ← gets (λ w. (w.heap next).hostname)
    former ← gets (λ w. (get_active_member w).1)
    if not (str_eq host n.hostname)
        then (do
          log env LogLevel.info (concat ("Waiting on " ∷ host ∷ " to become active" ∷ []))
          now ← gets (λ w. env.now w.trace)
          set_last_hc_response p now
          pure false)
        else (do
          (elim former [ some a ↦ set_status a Status.unavailable | none ↦ skip ])
          make_active next
          set_last_hc_response next 0
          log env LogLevel.info "Local node is now active"
          pure true)

  fail_over : ℕ → Option ℕ → Daemon Bool
  unfolding take_over
  fail_over p none = do
    log env LogLevel.warning "unable to find new active member.. we are now the active"
    make_active p
    pure true
  fail_over p (some next) = do l ← gets (λ w. get_local_node w.config); take_over p next l

  check_elapsed : ℕ → Daemon Bool
  unfolding suspect fail_over_limit fail_over
  check_elapsed p = do
    elapsed ← gets (λ w. seconds_since (env.now w.trace) (w.heap p).last_hc_response)
    suspect elapsed
    limit ← fail_over_limit
    if ltb_ℤ elapsed (div_pos limit 1000)
        then pure false
        else (do next ← get_next_active_member; fail_over p next)

  watch : ℕ → ℕ × Error → Daemon Bool
  unfolding check_elapsed
  watch p (l, some e) = pure true
  watch p (l, none) = do
    active ← gets (λ w. is_active (w.heap l).status)
    if active then pure true else check_elapsed p

  -- MonitorReceivedHCs, run on the member at `p`: true ends the routine.
  unfoldable pub monitor_received : ℕ → Daemon Bool
  unfolding watch
  monitor_received p = do
    clustered ← gets (λ w. cluster_check w.config)
    if not clustered then pure true else (do l ← get_local_member env; watch p l)
