-- ===== src/Network/Raising.antt =====
-- When bringing the addresses of the local node up or down returns.
use pulseha.Base.{String, List, Option, none, some, str_eq, refl}
use pulseha.Exec.{skip, for_each}
use pulseha.Exec.Total.{Total, bind-Total, if-Total, for_each-Total}
use pulseha.Config.{Node, Error, get_local_node}
use pulseha.World.{Env, Daemon, Plugin, LogLevel, Event}
use pulseha.Member.Sending.{IsLinked, CanDial, log-Total}
use pulseha.Network.{
  make_local_active, make_local_passive, make_group_active, make_group_passive, bring_up_ips,
  bring_down_ips, report, on_groups, on_node, all_local, plugin_call,
}

module _ (env : Env) (dials : CanDial env) where
  plugin_call-Total :
      (p : Option Plugin) (a : Error) (e : Event)
      → Total IsLinked (λ _. IsLinked) (plugin_call env p a e)
  unfolding plugin_call
  plugin_call-Total none a e s i = (none, refl, i)
  plugin_call-Total (some p) a e s i = (a, refl, record { free = i.free; reachable = i.reachable })

  report-Total : (e : Error) → Total IsLinked (λ _. IsLinked) (report env e)
  unfolding report
  report-Total none s i = (tt, refl, i)
  report-Total (some e) s i = log-Total env dials LogLevel.error e s i

  make_group_active-Total :
      (iface g : String) → Total IsLinked (λ _. IsLinked) (make_group_active env iface g)
  unfolding make_group_active bring_up_ips
  make_group_active-Total iface g s i =
      bind-Total IsLinked (λ _. IsLinked) (λ _. IsLinked) (bring_up_ips env iface _) _
        (λ t h. plugin_call-Total _ _ _ t h) (λ e. report-Total e) s i

  make_group_passive-Total :
      (iface g : String) → Total IsLinked (λ _. IsLinked) (make_group_passive env iface g)
  unfolding make_group_passive bring_down_ips
  make_group_passive-Total iface g s i =
      bind-Total IsLinked (λ _. IsLinked) (λ _. IsLinked) (bring_down_ips env iface _) _
        (λ t h. plugin_call-Total _ _ _ t h) (λ e t h. (tt, refl, h)) s i

  module _ (act : String → String → Daemon Unit)
      (act_returns : (i g : String) → Total IsLinked (λ _. IsLinked) (act i g)) where
    on_groups-Total :
        (e : String × List String) → Total IsLinked (λ _. IsLinked) (on_groups env act e)
    on_groups-Total (iface, gs) = for_each-Total IsLinked gs (act iface) (act_returns iface)

    on_node-Total :
        (h : String) (e : String × Node) → Total IsLinked (λ _. IsLinked) (on_node env act h e)
    on_node-Total h (uid, n) =
        if-Total IsLinked (str_eq n.hostname h) (for_each n.ip_groups.entries (on_groups env act))
          skip (for_each-Total IsLinked n.ip_groups.entries (on_groups env act) on_groups-Total)
          (λ s i. (tt, refl, i))

    all_local-Total :
        (m : String) (l : Node × Error) → Total IsLinked (λ _. IsLinked) (all_local env act m l)
    unfolding all_local
    all_local-Total m (n, some e) s i = log-Total env dials LogLevel.error m s i
    all_local-Total m (n, none) s i =
        for_each-Total IsLinked s.config.nodes.entries (on_node env act n.hostname)
          (on_node-Total n.hostname) s i

  pub make_local_active-Total : Total IsLinked (λ _. IsLinked) (make_local_active env)
  unfolding make_local_active
  make_local_active-Total s i =
      all_local-Total (make_group_active env) make_group_active-Total _ (get_local_node s.config) s
        i

  pub make_local_passive-Total : Total IsLinked (λ _. IsLinked) (make_local_passive env)
  unfolding make_local_passive
  make_local_passive-Total s i =
      all_local-Total (make_group_passive env) make_group_passive-Total _ (get_local_node s.config)
        s i
