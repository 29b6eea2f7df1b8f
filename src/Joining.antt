-- ===== src/Joining.antt =====
-- How a cluster is made and grows: nodeCreateLocal of src/pulseha/nodes.go, Create of
-- src/pulseha/cli_server.go. The log messages of these are local.
pub mod Asking
pub mod Admitting
use pulseha.Base.{
  ℕ, String, List, [], ◌∷◌, Bool, true, false, not, ◌||◌, Option, none, some, str_eq, ltb, ◌==◌,
  if◌then◌else◌, concat, is_some,
}
use pulseha.Base.Int.{ℤ, pos, ltb_ℤ}
use pulseha.Strconv.{atoi}
use pulseha.Exec.{Exec, pure, panic, exit, gets, modify, skip, for_each, deref, ◌>>=◌, ◌>>◌}
use pulseha.GoMap.{GoMap, get, put, empty}
use pulseha.Config.{Config, Node, Error, no_node, cluster_check}
use pulseha.ConfigFile.{save, load, update_value}
use pulseha.Nodes.{
  node_add, node_delete, node_exists_by_uuid, nodes_clear_local, node_get_by_hostname,
}
use pulseha.Groups.{gen_group_name, group_clear_local}
use pulseha.World.{
  World, Env, Daemon, Trace, Request, LogLevel, spawned, server_setup, asked, hung_up, log_event,
}
use pulseha.Member.{set_last_hc_response, log}
use pulseha.MemberList.{get_local_member}
use pulseha.Network.{group_assign, set_ifaces}
use pulseha.Server.{reload, sync_config}
use pulseha.Security.{
  Disk, sha256_matches, create_folder, store_file, generate_ca_cert, gen_tls_keys, ca_crt, ca_key,
}
use pulseha.CliServer.{CliReply}

-- What a node of the cluster answers to a join: an error of the call, a refusal, or the configuration, if
-- it can be decoded, with the authority's certificate and key.
pub data JoinAnswer : Type 0 where
  unreachable : String → JoinAnswer
  refused : String → JoinAnswer
  accepted : Option Config → String → String → JoinAnswer

-- uuid.New and generateRandomString, with crypto/sha256; and the node that is asked to let this one join.
pub record Outside : Type 0 where
  pub disk : Disk
  -- the error of the command `hostname`, where it fails
  pub hostname_error : Trace → String
  pub uuid : Trace → String
  pub random_token : Trace → Option String
  pub sha256 : String → String
  pub dial_peer : Trace → String → String → Error
  pub peer_answer : Trace → String → Request → JoinAnswer

abbrev pub in_port_range : ℤ → Bool
in_port_range i = not (ltb_ℤ i (pos 1) || ltb_ℤ (pos 65535) i)

abbrev pub set_config : Config → Daemon Unit
set_config c = modify (λ w. record w { config = c })

abbrev pub set_token : String → Config → Config
set_token hash c = record c { pulse = record c.pulse { cluster_token = hash } }

-- An interface of the new node, with no groups.
abbrev with_iface : String → String → Config → Config
with_iface uid iface c = elim (get c.nodes uid) [
  | some n ↦ set_ifaces uid (put n.ip_groups iface []) c
  | none ↦ c
]

abbrev pub with_group : String → Config → Config
with_group g c = record c { groups = put c.groups g [] }

-- The result of nodeCreateLocal: an id, a node and an error.
abbrev pub Created : Type 0
Created = String × Node × Error

module _ (env : Env) (out : Outside) where
  -- A fresh group on an interface; a failure is logged locally.
  unfoldable pub add_fresh_group : String → String → Daemon Unit
  add_fresh_group uid iface = do
    g ← gets (λ w. gen_group_name w.config)
    modify (λ w. record w { config = with_group g w.config })
    group_assign env g uid iface
    skip

  unfoldable pub add_iface : Bool → String → String → Daemon Unit
  unfolding add_fresh_group
  add_iface assign uid iface = if str_eq iface "lo" then skip else (do
    modify (λ w. record w { config = with_iface uid iface w.config })
    if assign then add_fresh_group uid iface else skip)

  no_local : String → Daemon Created
  no_local e = pure ("", no_node, some e)

  add_ifaces : Bool → String → Error → Daemon Created
  unfolding no_local add_iface
  add_ifaces assign uid (some e) = no_local e
  add_ifaces assign uid none = do
    names ← gets (λ w. env.interface_names w.trace)
    for_each names (add_iface assign uid)
    n ← (λ w. deref (get w.config.nodes uid) w)
    pure (uid, n, none)

  save_local : Bool → String → Error → Daemon Created
  unfolding add_ifaces
  save_local assign uid (some e) = no_local e
  save_local assign uid none = do e ← save env; add_ifaces assign uid e

  name_local : Bool → String → Config × Error → Daemon Created
  unfolding save_local
  name_local assign uid (c, some e) = no_local "unable to add local node to config"
  name_local assign uid (c, none) = do
    set_config c
    e ← update_value env "local_node" uid
    save_local assign uid e

  create_named : String → String → Bool → Option String → Daemon Created
  unfolding name_local
  create_named ip port assign none = no_local "cannot create cluster because unable to get hostname"
  create_named ip port assign (some h) = do
    uid ← gets (λ w. out.uuid w.trace)
    r ← gets (λ w.
        node_add w.config uid (record { hostname = h; ip = ip; port = port; ip_groups = empty }))
    name_local assign uid r

  -- nodeCreateLocal
  unfoldable pub node_create_local : String → String → Bool → Daemon Created
  unfolding create_named
  node_create_local ip port assign = do
    h ← gets (λ w. env.hostname w.trace)
    create_named ip port assign h

  or_panic : Error → Daemon Unit
  or_panic none = skip
  or_panic (some e) = panic

  created_message : String → String → String → String
  created_message token ip port = concat (
      "Pulse cluster successfully created!\n\t\nYou can now join any number of machines by running the following on each node:\n\npulsectl join -bind-ip=<IP_ADDRESS> -bind-port=<PORT> -token="
      ∷ token ∷ " " ∷ ip ∷ " " ∷ port ∷ "\n\t\t\t" ∷ [])

  finish_create : String → String → Created → Daemon CliReply
  unfolding or_panic created_message
  finish_create ip port (uid, n, some e) =
      pure (CliReply.failed 1 "Failed write local not to config")
  finish_create ip port (uid, n, none) = do
    drawn ← gets (λ w. out.random_token w.trace)
    token ← deref drawn
    modify (λ w. record w { config = set_token (out.sha256 token) w.config })
    e ← save env
    or_panic e
    generate_ca_cert out.disk ip
    made ← gen_tls_keys out.disk ip
    or_panic made
    modify (log_event (spawned server_setup))
    pure (CliReply.succeeded (created_message token ip port))

  -- CLIServer.Create
  unfoldable pub create : String → String → Daemon CliReply
  unfolding finish_create
  create ip port = do
    clustered ← gets (λ w. cluster_check w.config)
    if clustered
        then pure (CliReply.failed 2 "Pulse daemon is already in a configured cluster")
        else if not (in_port_range (atoi port).0)
        then pure (CliReply.failed 3 "Invalid port range")
        else (do
          modify (λ w. record w { config = group_clear_local (nodes_clear_local w.config) })
          r ← node_create_local ip port true
          finish_create ip port r)
