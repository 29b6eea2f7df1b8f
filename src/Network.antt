-- ===== src/Network.antt =====
-- The floating addresses that go up and down with a role: BringUpIPs, BringDownIPs, MakeLocalActive and
-- MakeLocalPassive of src/pulseha/utils.go, and makeGroupActive, makeGroupPassive, groupAssign,
-- groupUnassign and groupIpRemove of src/pulseha/groups.go.
pub mod Frame
pub mod Raising
pub mod Assigning
use pulseha.Base.{
  ℕ, String, List, [], ◌∷◌, ◌++◌, Bool, true, false, not, ◌&&◌, Option, none, some, str_eq,
  if◌then◌else◌, any, first, concat, is_some,
}
use pulseha.Exec.{Exec, pure, panic, gets, modify, skip, for_each, deref, ◌>>=◌, ◌>>◌}
use pulseha.GoMap.{GoMap, get, put}
use pulseha.Config.{Config, Node, Error, get_local_node}
use pulseha.World.{
  World, Env, Daemon, Plugin, PluginType, LogLevel, Event, ips_up, ips_down, log_event, Trace,
}
use pulseha.Member.{is_networking, log}
use pulseha.MemberList.{get_active_member}
use pulseha.Groups.{slice_at, index_of, remove_at, group_exist, remove_ip}

abbrev pub if_networking : Plugin → Option Plugin
if_networking p = if is_networking p.plugin_type then some p else none

-- GetNetworkingPlugin
abbrev pub get_networking_plugin : World → Option Plugin
get_networking_plugin w = first if_networking w.modules

abbrev write_config : (Config → Config) → Daemon Unit
write_config f = modify (λ w. record w { config = f w.config })

abbrev pub set_ifaces : String → GoMap (List String) → Config → Config
set_ifaces uid ifaces c = elim (get c.nodes uid) [
  | some n ↦ record c { nodes = put c.nodes uid (record n { ip_groups = ifaces }) }
  | none ↦ c
]

module _ (env : Env) where
  plugin_call : Option Plugin → Error → Event → Daemon Error
  plugin_call none answer e = pure none
  plugin_call (some p) answer e = do modify (log_event e); pure answer

  -- BringUpIPs
  unfoldable pub bring_up_ips : String → List String → Daemon Error
  unfolding plugin_call
  bring_up_ips iface ips w =
      plugin_call (get_networking_plugin w) (env.bring_up w.trace iface ips) (ips_up iface ips) w

  -- BringDownIPs
  unfoldable pub bring_down_ips : String → List String → Daemon Error
  unfolding plugin_call
  bring_down_ips iface ips w =
      plugin_call (get_networking_plugin w) (env.bring_down w.trace iface ips) (ips_down iface ips)
        w

  report : Error → Daemon Unit
  report none = skip
  report (some e) = log env LogLevel.error e

  -- makeGroupActive
  unfoldable pub make_group_active : String → String → Daemon Unit
  unfolding bring_up_ips report
  make_group_active iface g = do
    ips ← gets (λ w. slice_at w.config.groups g)
    e ← bring_up_ips iface ips
    report e

  -- makeGroupPassive, which only notes an error in the debug log
  unfoldable pub make_group_passive : String → String → Daemon Unit
  unfolding bring_down_ips
  make_group_passive iface g = do
    ips ← gets (λ w. slice_at w.config.groups g)
    bring_down_ips iface ips
    skip

  abbrev pub on_groups : (String → String → Daemon Unit) → String × List String → Daemon Unit
  on_groups f (iface, gs) = for_each gs (f iface)

  abbrev pub on_node : (String → String → Daemon Unit) → String → String × Node → Daemon Unit
  on_node f host (uid, n) =
      if str_eq n.hostname host then for_each n.ip_groups.entries (on_groups f) else skip

  all_local : (String → String → Daemon Unit) → String → Node × Error → Daemon Unit
  all_local f message (n, some e) = log env LogLevel.error message
  all_local f message (n, none) = do
    nodes ← gets (λ w. w.config.nodes.entries)
    for_each nodes (on_node f n.hostname)

  -- MakeLocalActive
  unfoldable pub make_local_active : Daemon Unit
  unfolding all_local
  make_local_active = do
    n ← gets (λ w. get_local_node w.config)
    all_local make_group_active "local node not found in config. Failed to make active." n

  -- MakeLocalPassive
  unfoldable pub make_local_passive : Daemon Unit
  unfolding all_local
  make_local_passive = do
    n ← gets (λ w. get_local_node w.config)
    all_local make_group_passive "local node not found in config. Failed to make passive." n

  assign_local : String → String → String → Node × Error → Daemon Error
  assign_local iface g active (n, some e) =
      pure (some "unable to retrieve local node configuration")
  assign_local iface g active (n, none) = do
    if str_eq active n.hostname then make_group_active iface g else skip
    pure none

  assign_to : String → String → String → Node → Daemon Error
  unfolding assign_local
  assign_to g uid iface n = do
    if any (str_eq g) (slice_at n.ip_groups iface)
        then (do
          log env LogLevel.warning
              (concat (g ∷ " is already assigned to " ∷ iface ∷ ".. skipping." ∷ []))
          pure none)
        else (do
          write_config
              (set_ifaces uid (put n.ip_groups iface (slice_at n.ip_groups iface ++ g ∷ [])))
          active ← gets (λ w. (get_active_member w).0)
          l ← gets (λ w. get_local_node w.config)
          assign_local iface g active l)

  -- groupAssign: an unknown uid is a nil pointer.
  unfoldable pub group_assign : String → String → String → Daemon Error
  unfolding assign_to
  group_assign g uid iface = do
    known ← gets (λ w. group_exist w.config g)
    there ← gets (λ w. env.interface_exist w.trace iface)
    node ← gets (λ w. get w.config.nodes uid)
    if not known
        then pure (some "IP group does not exist")
        else if not there
        then pure (some "interface does not exist")
        else (do n ← deref node; assign_to g uid iface n)

  unassign_from : String → String → String → Node → Option ℕ → Daemon Error
  unassign_from g uid iface n (some i) = do
    make_group_passive iface g
    write_config (set_ifaces uid (put n.ip_groups iface (remove_at i (slice_at n.ip_groups iface))))
    pure none
  unassign_from g uid iface n none = do
    log env LogLevel.warning (concat (g ∷ " does not exist in node " ∷ uid ∷ ".. skipping." ∷ []))
    pure none

  -- groupUnassign
  unfoldable pub group_unassign : String → String → String → Daemon Error
  unfolding unassign_from
  group_unassign g uid iface = do
    there ← gets (λ w. env.interface_exist w.trace iface)
    node ← gets (λ w. get w.config.nodes uid)
    if not there then pure (some "interface does not exist") else (do
      n ← deref node
      unassign_from g uid iface n (index_of g (slice_at n.ip_groups iface)))

  warn_missing : String → String → Bool → Daemon Unit
  warn_missing g ip false = skip
  warn_missing g ip true =
      log env LogLevel.warning (concat (ip ∷ " does not exist in group " ∷ g ∷ ".. skipping." ∷ []))

  remove_one : String → String → Daemon Unit
  unfolding warn_missing
  remove_one g ip = do
    r ← gets (λ w. remove_ip w.config g ip)
    write_config (λ _. r.0)
    warn_missing g ip r.1

  -- groupIpRemove
  unfoldable pub group_ip_remove : String → List String → Daemon Error
  unfolding remove_one
  group_ip_remove g ips = do
    known ← gets (λ w. group_exist w.config g)
    if not known
        then pure (some "group does not exist")
        else (do for_each ips (remove_one g); pure none)
