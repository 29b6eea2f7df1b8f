-- ===== src/Administration.antt =====
-- src/pulseha/cli_server.go: Config, Token, TLS, Network, and the listings GroupList and Status;
-- nodeUpdateLocalInterfaces and nodeUpdateLocalHostname of src/pulseha/nodes.go, getGroupNodes of
-- src/pulseha/groups.go, and Member.BringUpIPs of src/pulseha/member.go.
pub mod Tokens
use pulseha.Base.{
  ℕ, String, List, [], ◌∷◌, ◌++◌, map, Bool, true, false, not, ◌&&◌, ◌||◌, Option, none, some,
  str_eq, ◌==◌, any, if◌then◌else◌, concat,
}
use pulseha.Base.Int.{ℤ, to_int32}
use pulseha.Exec.{pure, gets, modify, skip, for_each, deref, ◌>>=◌, ◌>>◌}
use pulseha.GoMap.{get, delete, has}
use pulseha.Config.{Config, Node, Error, cluster_check, get_local_node, get_group_iface}
use pulseha.ConfigFile.{save, load, update_value, update_hostname}
use pulseha.Nodes.{node_get_by_hostname}
use pulseha.World.{World, Env, Daemon, Status, Request, LogLevel}
use pulseha.Member.{send, log}
use pulseha.Network.{set_ifaces, bring_up_ips}
use pulseha.Server.{sync_config}
use pulseha.Security.{gen_tls_keys}
use pulseha.CliServer.{CliReply, cluster_required}
use pulseha.Joining.{Outside, add_iface, set_token}

pub data Order : Type 0 where
  set_value : String → String → Order
  new_token : Order
  new_keys : String → Order
  network : String → Order

pub record GroupRow : Type 0 where
  pub name : String
  pub ips : List String
  pub nodes : List String
  pub interfaces : List String

pub record StatusRow : Type 0 where
  pub hostname : String
  pub ip : String
  pub latency : String
  pub status : Status
  pub last_received : String
  pub score : ℤ

-- The hosts and interfaces that a group is assigned to, in pairs.
abbrev assigned_on : String → String → String × List String → List (String × String)
assigned_on g host (iface, []) = []
assigned_on g host (iface, x ∷ xs) =
    if str_eq g x
    then (host, iface) ∷ assigned_on g host (iface, xs)
    else assigned_on g host (iface, xs)

abbrev assigned_in : String → String → List (String × List String) → List (String × String)
assigned_in g host [] = []
assigned_in g host (e ∷ es) = assigned_on g host e ++ assigned_in g host es

unfoldable pub assigned_to : String → List (String × Node) → List (String × String)
assigned_to g [] = []
assigned_to g ((uid, n) ∷ es) = assigned_in g n.hostname n.ip_groups.entries ++ assigned_to g es

-- getGroupNodes
unfoldable pub get_group_nodes : Config → String → List String × List String
unfolding assigned_to
get_group_nodes c g =
    let pairs = assigned_to g c.nodes.entries in (map (λ p. p.0) pairs, map (λ p. p.1) pairs)

group_row : Config → String × List String → GroupRow
unfolding get_group_nodes
group_row c (name, ips) =
    let (nodes, interfaces) = get_group_nodes c name in
    record { name = name; ips = ips; nodes = nodes; interfaces = interfaces }

-- CLIServer.GroupList: `none` stands for the answer that a cluster is required.
unfoldable pub group_list : Config → Option (List GroupRow)
unfolding group_row
group_list c = if cluster_check c then some (map (group_row c) c.groups.entries) else none

abbrev has_iface : String → String → Config → Bool
has_iface uid iface c = elim (get c.nodes uid) [ some n ↦ has n.ip_groups iface | none ↦ false ]

abbrev without_iface : String → String → Config → Config
without_iface uid iface c = elim (get c.nodes uid) [
  | some n ↦ set_ifaces uid (delete n.ip_groups iface) c
  | none ↦ c
]

abbrev ifaces_of : String → Config → List (String × List String)
ifaces_of uid c = elim (get c.nodes uid) [ some n ↦ n.ip_groups.entries | none ↦ [] ]

module _ (env : Env) where
  status_row : World → ℕ → StatusRow
  status_row w p =
      let m = w.heap p in
      let (uid, n, e) = node_get_by_hostname w.config m.hostname in
      record {
        hostname = m.hostname;
        ip = n.ip;
        latency = m.latency;
        status = m.status;
        last_received = if m.last_hc_response == 0 then "" else env.format_time m.last_hc_response;
        score = to_int32 m.score;
      }

  -- CLIServer.Status
  unfoldable pub status_rows : World → Option (List StatusRow)
  unfolding status_row
  status_rows w = if cluster_check w.config then some (map (status_row w) w.members) else none

  sent_up : Error → Bool
  sent_up (some e) = false
  sent_up none = true

  bring_up_at : ℕ → List String → String → Node × Error → Daemon Bool
  unfolding sent_up
  bring_up_at p ips iface (n, some e) = do
    log env LogLevel.error "BringUpIPs() unable to retrieve local node configuration"
    pure false
  bring_up_at p ips iface (n, none) = do
    host ← gets (λ w. (w.heap p).hostname)
    if str_eq host n.hostname
        then (do bring_up_ips env iface ips; pure true)
        else (do e ← send env p (Request.bring_up_ip iface ips); pure (sent_up e))

  bring_up_on_iface : ℕ → List String → String × Error → Daemon Bool
  unfolding bring_up_at
  bring_up_on_iface p ips (iface, some e) = pure false
  bring_up_on_iface p ips (iface, none) = do
    l ← gets (λ w. get_local_node w.config)
    bring_up_at p ips iface l

  -- Member.BringUpIPs
  unfoldable pub member_bring_up_ips : ℕ → List String → String → Daemon Bool
  unfolding bring_up_on_iface
  member_bring_up_ips p ips g = do
    r ← gets (λ w. get_group_iface w.config (w.heap p).hostname g)
    bring_up_on_iface p ips r

  -- nodeUpdateLocalHostname
  unfoldable pub node_update_local_hostname : String → Daemon Error
  node_update_local_hostname h = do update_hostname h; save env; sync_config env

module _ (env : Env) (out : Outside) where
  -- An interface of the machine that the node lacks.
  add_missing : String → String → Daemon Unit
  add_missing uid iface = do
    there ← gets (λ w. has_iface uid iface w.config)
    if there then skip else add_iface env out true uid iface

  -- An interface of the node that the machine lacks.
  drop_missing : List String → String → String × List String → Daemon Unit
  drop_missing names uid (iface, gs) =
      if any (str_eq iface) names
      then skip
      else modify (λ w. record w { config = without_iface uid iface w.config })

  saved_or : Error → Error
  saved_or (some e) = some "unable to save config"
  saved_or none = none

  update_ifaces : String × Node × Error → Daemon Error
  unfolding add_missing drop_missing saved_or
  update_ifaces (uid, n, some e) = pure (some e)
  update_ifaces (uid, n, none) = do
    names ← gets (λ w. env.interface_names w.trace)
    for_each names (add_missing uid)
    held ← gets (λ w. ifaces_of uid w.config)
    for_each held (drop_missing names uid)
    e ← save env
    pure (saved_or e)

  update_ifaces_of : Option String → Daemon Error
  unfolding update_ifaces
  update_ifaces_of none = do e ← gets (λ w. out.hostname_error w.trace); pure (some e)
  update_ifaces_of (some h) = do n ← gets (λ w. node_get_by_hostname w.config h); update_ifaces n

  -- nodeUpdateLocalInterfaces
  unfoldable pub node_update_local_interfaces : Daemon Error
  unfolding update_ifaces_of
  node_update_local_interfaces = do h ← gets (λ w. env.hostname w.trace); update_ifaces_of h

  finish_setting : Error → Daemon CliReply
  finish_setting (some e) = pure (CliReply.failed 6 e)
  finish_setting none = pure (CliReply.succeeded "Successfully updated PulseHA config")

  reload_setting : Error → Daemon CliReply
  unfolding finish_setting
  reload_setting (some e) = pure (CliReply.failed 5 e)
  reload_setting none = do load env; e ← sync_config env; finish_setting e

  save_setting : Error → Daemon CliReply
  unfolding reload_setting
  save_setting (some e) = pure (CliReply.failed 2 e)
  save_setting none = do e ← save env; reload_setting e

  renamed : Error → CliReply
  renamed (some e) = CliReply.failed 3 e
  renamed none = CliReply.succeeded "Successfully updated PulseHA config"

  -- CLIServer.Config, which does not ask for a cluster
  unfoldable pub change_setting : String → String → Daemon CliReply
  unfolding save_setting renamed
  change_setting key value =
      if str_eq key "local_node" || str_eq key "cluster_token"
      then pure (
          CliReply.failed 4 (
            concat ("You are unable to use the config command to change the value of " ∷ key ∷ [])))
      else if str_eq key "hostname"
      then (do e ← node_update_local_hostname env value; pure (renamed e))
      else (do e ← update_value env key value; save_setting e)

  token_synced : String → Error → Daemon CliReply
  token_synced token (some e) =
      pure (CliReply.failed 2 "You must be in a configured cluster to complete this action.")
  token_synced token none = do
    save env
    pure (CliReply.succeeded (concat ("Success! Your new cluster token is " ∷ token ∷ [])))

  -- CLIServer.Token
  unfoldable pub renew_token : Daemon CliReply
  unfolding token_synced
  renew_token = do
    drawn ← gets (λ w. out.random_token w.trace)
    token ← deref drawn
    modify (λ w. record w { config = set_token (out.sha256 token) w.config })
    e ← sync_config env
    token_synced token e

  made_keys : Error → CliReply
  made_keys (some e) = CliReply.failed 2 e
  made_keys none = CliReply.succeeded "Successfully generated new TLS certificates"

  -- CLIServer.TLS
  unfoldable pub renew_keys : String → Daemon CliReply
  unfolding made_keys
  renew_keys ip = do e ← gen_tls_keys out.disk ip; pure (made_keys e)

  resynced : Error → CliReply
  resynced (some e) = CliReply.failed 2 e
  resynced none =
      CliReply.succeeded "Success! PulseHA config has been sync'd with local network interfaces"

  -- CLIServer.Network
  unfoldable pub change_network : String → Daemon CliReply
  unfolding resynced
  change_network action =
      if str_eq action "resync"
      then (do e ← node_update_local_interfaces; pure (resynced e))
      else pure (resynced none)

  carry_out : Order → Daemon CliReply
  carry_out (Order.set_value key value) = change_setting key value
  carry_out Order.new_token = renew_token
  carry_out (Order.new_keys ip) = renew_keys ip
  carry_out (Order.network action) = change_network action

  needs_cluster : Order → Bool
  needs_cluster (Order.set_value key value) = false
  needs_cluster Order.new_token = true
  needs_cluster (Order.new_keys ip) = true
  needs_cluster (Order.network action) = true

  -- Every one of these but Config starts with ClusterCheck.
  unfoldable pub administer : Order → Daemon CliReply
  unfolding carry_out needs_cluster
  administer o = do
    clustered ← gets (λ w. cluster_check w.config)
    if needs_cluster o && not clustered then pure cluster_required else carry_out o
