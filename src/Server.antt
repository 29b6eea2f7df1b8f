-- ===== src/Server.antt =====
-- src/pulseha/server.go, what the daemon does on the requests of other nodes, without Join;
-- CanCommunicate and GetFailOverCountWinner of src/pulseha/utils.go; Reload and SyncConfig of
-- src/pulseha/member_list.go. The mutex of the server makes one request at a time of them.
pub mod Guard
use pulseha.Base.{
  ℕ, zero, suc, ◌+◌, ◌-◌, String, List, [], ◌∷◌, Bool, true, false, not, ◌&&◌, Option, none, some,
  str_eq, ltb, ◌==◌, if◌then◌else◌, concat, get_elem?, is_some,
}
use pulseha.Base.Int.{ℤ, to_int32}
use pulseha.Exec.{Exec, pure, panic, exit, gets, modify, skip, deref, ◌>>=◌, ◌>>◌}
use pulseha.Config.{
  Config, Node, Error, cluster_check, get_local_node, get_node_by_hostname,
  get_node_hostname_by_address,
}
use pulseha.ConfigFile.{save, load}
use pulseha.Nodes.{node_delete, nodes_clear_local}
use pulseha.World.{
  World, Env, Daemon, Member, MemberlistMember, Status, LogLevel, Request, server_stopped,
  log_event,
}
use pulseha.Member.{set_status, set_last_hc_response, log, broadcast}
use pulseha.MemberList.{
  get_active_member, get_member_by_hostname, get_local_member, member_remove_by_hostname,
  update_members, load_members, reset,
}
use pulseha.Network.{bring_up_ips, bring_down_ips, make_local_passive}
use pulseha.Failover.{make_active, make_passive as make_member_passive, is_unavailable}

-- The requests, with the fields that the handlers read. A configuration that cannot be decoded is `none`.
pub data Call : Type 0 where
  health_check : List MemberlistMember → Call
  leave remove promote make_passive : String → Call
  config_sync : Option Config → Call
  bring_up_ip bring_down_ip : String → List String → Call
  logs : LogLevel → String → Call

pub data Reply : Type 0 where
  unauthorized : Reply
  replied : Bool → String → Reply
  scored : ℤ → Reply
  logged : Reply

abbrev hostname_at : List MemberlistMember → ℕ → Option String
hostname_at ms i = elim (get_elem? ms i) [ some m ↦ some m.hostname | none ↦ none ]

-- The loop of GetFailOverCountWinner at index `i`; `none` is an index out of range.
unfoldable pub winner :
    (String → ℕ) → Bool → List MemberlistMember → ℕ → List MemberlistMember → Option String
winner parse failback all i [] = some ""
winner parse failback all i (m ∷ ms) =
    let later = winner parse failback all (suc i) ms in
    if is_unavailable m.status
    then later
    else if parse m.last_received == 0 && failback
    then some m.hostname
    else if ltb 1 i
    then hostname_at all (i - 1)
    else hostname_at all (suc i)

-- GetFailOverCountWinner
unfoldable pub get_fail_over_count_winner :
    (String → ℕ) → Bool → List MemberlistMember → Option String
unfolding winner
get_fail_over_count_winner parse failback ms = winner parse failback ms 0 ms

abbrev replace_config : Config → Daemon Unit
replace_config c = modify (λ w. record w { config = c })

module _ (env : Env) where
  -- MemberList.Reload
  unfoldable pub reload : Daemon Unit
  reload = do load env; load_members

  -- SyncConfig, whose configuration always marshals
  unfoldable pub sync_config : Daemon Error
  sync_config = do c ← gets (λ w. w.config); broadcast env (Request.config_sync c); pure none

  known_address : String × Error → Daemon Bool
  known_address (h, none) = pure true
  known_address (h, some e) = do
    log env LogLevel.warning
        (concat (e ∷ ". Communication received from another node not in cluster" ∷ []))
    pure false

  -- CanCommunicate, on the address that the request comes from
  unfoldable pub can_communicate : Option String → Daemon Bool
  unfolding known_address
  can_communicate none = do
    log env LogLevel.warning "Unable to get address details for context"
    pure false
  can_communicate (some ip) = do
    r ← gets (λ w. get_node_hostname_by_address w.config ip)
    known_address r

  -- Server.Shutdown
  unfoldable pub shutdown : Daemon Unit
  shutdown = do
    clustered ← gets (λ w. cluster_check w.config)
    if clustered then make_local_passive env else skip
    reset
    modify (log_event server_stopped)

  follow_active : String → List MemberlistMember → Daemon Unit
  follow_active host ms = do
    found ← get_member_by_hostname env host
    p ← deref found
    now ← gets (λ w. env.now w.trace)
    set_last_hc_response p now
    update_members env ms

  step_down : Error → Daemon Unit
  step_down none = skip
  step_down (some e) = log env LogLevel.error e

  settle_mismatch : ℕ → List MemberlistMember → Daemon Unit
  unfolding step_down get_fail_over_count_winner
  settle_mismatch l ms = do
    log env LogLevel.warning "Active node mismatch"
    h ← (λ w. deref (get_fail_over_count_winner env.parse_time w.config.pulse.auto_failback ms) w)
    log env LogLevel.info
        (concat ("Member " ∷ h ∷ " has been determined as the correct active node." ∷ []))
    own ← gets (λ w. (w.heap l).hostname)
    if not (str_eq h own)
        then (do e ← make_member_passive env l; step_down e)
        else set_last_hc_response l 0

  -- Server.HealthCheck
  on_health_check : List MemberlistMember → Daemon Reply
  unfolding follow_active settle_mismatch
  on_health_check ms = do
    active ← gets (λ w. (get_active_member w).0)
    l ← get_local_member env
    own ← gets (λ w. (w.heap l.0).hostname)
    if not (str_eq active own) then follow_active own ms else settle_mismatch l.0 ms
    score ← gets (λ w. (w.heap l.0).score)
    pure (Reply.scored (to_int32 score))

  -- What Leave does with the outcome of nodeDelete.
  left_cluster : String → Config × Error → Daemon Reply
  left_cluster h (c, some e) = pure (Reply.replied false e)
  left_cluster h (c, none) = do
    replace_config c
    e ← save env
    if is_some e then exit else skip
    log env LogLevel.info (concat ("Successfully removed " ∷ h ∷ " from the cluster" ∷ []))
    pure (Reply.replied true "Successfully removed node from local config")

  -- Server.Leave
  on_leave : String → Daemon Reply
  unfolding left_cluster
  on_leave h = do
    id ← gets (λ w. (get_node_by_hostname w.config h).0)
    member_remove_by_hostname h
    r ← gets (λ w. node_delete w.config id)
    left_cluster h r

  removed : String → Daemon Reply
  removed h = do
    save env
    log env LogLevel.info (concat ("Successfully removed node " ∷ h ∷ " from the cluster" ∷ []))
    pure (Reply.replied true "Successfully removed node from local config")

  -- nodeDelete, which Remove gives a hostname
  removed_other : String → Config × Error → Daemon Reply
  removed_other h (c, some e) = pure (Reply.replied false e)
  removed_other h (c, none) = do replace_config c; removed h

  -- Server.Remove, on this machine's hostname
  remove_with : Option String → String → Daemon Reply
  unfolding removed removed_other
  remove_with none h =
      pure (Reply.replied false "Unable to perform remove as unable to get local hostname")
  remove_with (some own) h = do
    found ← get_member_by_hostname env h
    p ← deref found
    set_status p Status.leaving
    if str_eq h own
        then (do
          shutdown
          modify (λ w. record w { config = nodes_clear_local w.config })
          removed h)
        else (do
          member_remove_by_hostname h
          r ← gets (λ w. node_delete w.config h)
          removed_other h r)

  on_remove : String → Daemon Reply
  unfolding remove_with
  on_remove h = do own ← gets (λ w. env.hostname w.trace); remove_with own h

  -- Server.ConfigSync
  on_config_sync : Option Config → Daemon Reply
  on_config_sync none = exit
  on_config_sync (some c) = do
    modify
        (λ w. record w { config = record c { pulse = w.config.pulse; plugins = w.config.plugins } })
    save env
    reload
    pure (Reply.replied true "")

  promoted : String → Error → Daemon Reply
  promoted h (some e) = pure (Reply.replied false "")
  promoted h none = do
    log env LogLevel.info (concat (h ∷ " has been promoted to active" ∷ []))
    pure (Reply.replied true "")

  promote_found : String → Option ℕ → Daemon Reply
  unfolding promoted
  promote_found h none = pure (Reply.replied false "")
  promote_found h (some p) = do e ← make_active env p; promoted h e

  demote_found : String → Option ℕ → Daemon Reply
  demote_found h none = pure (Reply.replied false "")
  demote_found h (some p) = do
    e ← make_member_passive env p
    log env LogLevel.info (concat (h ∷ " has been demoted to passive" ∷ []))
    pure (Reply.replied (not (is_some e)) "")

  -- Promote and MakePassive act on the local member only.
  on_local : (String → Option ℕ → Daemon Reply) → String → Node × Error → Daemon Reply
  on_local act h (n, some e) = pure (Reply.replied false "")
  on_local act h (n, none) =
      if not (str_eq h n.hostname)
      then pure (Reply.replied false "")
      else (do found ← get_member_by_hostname env h; act h found)

  -- Server.Promote
  on_promote : String → Daemon Reply
  unfolding promote_found on_local
  on_promote h = do l ← gets (λ w. get_local_node w.config); on_local promote_found h l

  -- Server.MakePassive
  on_make_passive : String → Daemon Reply
  unfolding demote_found on_local
  on_make_passive h = do l ← gets (λ w. get_local_node w.config); on_local demote_found h l

  ips_reply : Error → Reply
  ips_reply none = Reply.replied true "success"
  ips_reply (some e) = Reply.replied false e

  -- Server.BringUpIP
  on_bring_up_ip : String → List String → Daemon Reply
  unfolding ips_reply
  on_bring_up_ip iface ips = do e ← bring_up_ips env iface ips; pure (ips_reply e)

  -- Server.BringDownIP
  on_bring_down_ip : String → List String → Daemon Reply
  unfolding ips_reply
  on_bring_down_ip iface ips = do e ← bring_down_ips env iface ips; pure (ips_reply e)

  unfoldable pub handle : Call → Daemon Reply
  unfolding on_health_check on_leave on_remove on_promote on_make_passive on_config_sync
      on_bring_up_ip on_bring_down_ip
  handle (Call.health_check ms) = on_health_check ms
  handle (Call.leave h) = on_leave h
  handle (Call.remove h) = on_remove h
  handle (Call.promote h) = on_promote h
  handle (Call.make_passive h) = on_make_passive h
  handle (Call.config_sync c) = on_config_sync c
  handle (Call.bring_up_ip iface ips) = on_bring_up_ip iface ips
  handle (Call.bring_down_ip iface ips) = on_bring_down_ip iface ips
  -- Server.Logs, which prints the message to the local log
  handle (Call.logs level m) = pure Reply.logged

  -- Every handler starts with CanCommunicate.
  unfoldable pub serve : Option String → Call → Daemon Reply
  unfolding handle
  serve peer call = do
    ok ← can_communicate peer
    if ok then handle call else pure Reply.unauthorized
