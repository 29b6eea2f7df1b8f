-- ===== src/Network/Frame.antt =====
-- What bringing addresses up and down leaves alone: every property that the calls of the network plugin
-- and messages to the cluster keep.
use pulseha.Base.{String, List, Option, none, some, str_eq}
use pulseha.Exec.{skip, for_each}
use pulseha.Exec.Keeps.{Keeps, bind-Keeps, if-Keeps, for_each-Keeps}
use pulseha.Config.{Node, Error, get_local_node}
use pulseha.World.{World, Env, Daemon, Plugin, LogLevel, Event, ips_up, ips_down, log_event}
use pulseha.Member.{log}
use pulseha.Member.Frame.{Frame, log-Frame, logged}
use pulseha.Network.{
  make_local_active, make_local_passive, make_group_active, make_group_passive, bring_up_ips,
  bring_down_ips, report, on_groups, on_node, all_local, plugin_call,
}

module _ (env : Env) (Inv : World → Type 0)
    (up_keeps : (i : String) (ips : List String) (s : World)
      → Inv s
      → Inv (log_event (ips_up i ips) s))
    (down_keeps : (i : String) (ips : List String) (s : World)
      → Inv s
      → Inv (log_event (ips_down i ips) s))
    (log_keeps : (l : LogLevel) (m : String) → Keeps Inv (log env l m)) where
  plugin_call-Keeps :
      (p : Option Plugin) (a : Error) (e : Event)
      → ((s : World) → Inv s → Inv (log_event e s))
      → Keeps Inv (plugin_call env p a e)
  unfolding plugin_call
  plugin_call-Keeps none a e k s i = i
  plugin_call-Keeps (some p) a e k s i = k s i

  report-Keeps : (e : Error) → Keeps Inv (report env e)
  unfolding report
  report-Keeps none s i = i
  report-Keeps (some e) s i = log_keeps LogLevel.error e s i

  make_group_active-Keeps : (iface g : String) → Keeps Inv (make_group_active env iface g)
  unfolding make_group_active bring_up_ips
  make_group_active-Keeps iface g s i =
      bind-Keeps Inv (bring_up_ips env iface _) _
        (λ t h. plugin_call-Keeps _ _ _ (up_keeps iface _) t h) (λ e. report-Keeps e) s i

  make_group_passive-Keeps : (iface g : String) → Keeps Inv (make_group_passive env iface g)
  unfolding make_group_passive bring_down_ips
  make_group_passive-Keeps iface g s i =
      bind-Keeps Inv (bring_down_ips env iface _) _
        (λ t h. plugin_call-Keeps _ _ _ (down_keeps iface _) t h) (λ e t h. h) s i

  module _ (act : String → String → Daemon Unit)
      (act_keeps : (i g : String) → Keeps Inv (act i g)) where
    on_groups-Keeps : (e : String × List String) → Keeps Inv (on_groups env act e)
    on_groups-Keeps (iface, gs) = for_each-Keeps Inv gs (act iface) (act_keeps iface)

    on_node-Keeps : (h : String) (e : String × Node) → Keeps Inv (on_node env act h e)
    on_node-Keeps h (uid, n) =
        if-Keeps Inv (str_eq n.hostname h) (for_each n.ip_groups.entries (on_groups env act)) skip
          (for_each-Keeps Inv n.ip_groups.entries (on_groups env act) on_groups-Keeps) (λ s i. i)

    all_local-Keeps : (m : String) (l : Node × Error) → Keeps Inv (all_local env act m l)
    unfolding all_local
    all_local-Keeps m (n, some e) s i = log_keeps LogLevel.error m s i
    all_local-Keeps m (n, none) s i =
        for_each-Keeps Inv s.config.nodes.entries (on_node env act n.hostname)
          (on_node-Keeps n.hostname) s i

  pub make_local_active-Keeps : Keeps Inv (make_local_active env)
  unfolding make_local_active
  make_local_active-Keeps s i =
      all_local-Keeps (make_group_active env) make_group_active-Keeps _ (get_local_node s.config) s
        i

  pub make_local_passive-Keeps : Keeps Inv (make_local_passive env)
  unfolding make_local_passive
  make_local_passive-Keeps s i =
      all_local-Keeps (make_group_passive env) make_group_passive-Keeps _ (get_local_node s.config)
        s i

module _ (env : Env) (w : World) where
  pub make_group_active-Frame : (iface g : String) → Keeps (Frame w) (make_group_active env iface g)
  make_group_active-Frame =
      make_group_active-Keeps env (Frame w) (λ i ips s f. logged env w s _ f)
        (λ i ips s f. logged env w s _ f) (log-Frame env w)

  -- Bringing the groups of the local node up leaves all but connections and the trace as it was.
  pub make_local_active-Frame : Keeps (Frame w) (make_local_active env)
  make_local_active-Frame =
      make_local_active-Keeps env (Frame w) (λ i ips s f. logged env w s _ f)
        (λ i ips s f. logged env w s _ f) (log-Frame env w)

  -- So does taking them down.
  pub make_local_passive-Frame : Keeps (Frame w) (make_local_passive env)
  make_local_passive-Frame =
      make_local_passive-Keeps env (Frame w) (λ i ips s f. logged env w s _ f)
        (λ i ips s f. logged env w s _ f) (log-Frame env w)
