-- ===== src/Joining/Asking.antt =====
-- Join of src/pulseha/cli_server.go: this machine asks a node of the cluster. The log messages are local.
pub mod Retry
pub mod Joined
use pulseha.Base.{
  ℕ, String, List, [], ◌∷◌, Bool, true, false, not, ◌||◌, Option, none, some, str_eq, ltb, ◌==◌,
  if◌then◌else◌, concat, is_some,
}
use pulseha.Base.Int.{ℤ, pos, ltb_ℤ}
use pulseha.Strconv.{atoi}
use pulseha.Exec.{Exec, pure, panic, exit, gets, modify, skip, for_each, deref, ◌>>=◌, ◌>>◌}
use pulseha.GoMap.{GoMap, get, put, empty}
use pulseha.Config.{Config, Node, Error, no_node, cluster_check}
use pulseha.ConfigFile.{save, load, update_value}
use pulseha.Nodes.{
  node_add, node_delete, node_exists_by_uuid, nodes_clear_local, node_get_by_hostname,
}
use pulseha.Groups.{gen_group_name, group_clear_local}
use pulseha.World.{
  World, Env, Daemon, Trace, Request, LogLevel, spawned, server_setup, asked, hung_up, log_event,
}
use pulseha.Member.{set_last_hc_response, log}
use pulseha.MemberList.{get_local_member}
use pulseha.Network.{group_assign, set_ifaces}
use pulseha.Server.{reload, sync_config}
use pulseha.Security.{
  Disk, sha256_matches, create_folder, store_file, generate_ca_cert, gen_tls_keys, ca_crt, ca_key,
}
use pulseha.CliServer.{CliReply}
use pulseha.Joining.{Outside, JoinAnswer, Created, in_port_range, node_create_local, set_config}

module _ (env : Env) (out : Outside) where
  -- nodeCreateLocal, unless there is a node of this machine's hostname
  local_definition : String → String → String × Node × Error → Daemon Created
  local_definition ip port (uid, n, none) = pure (uid, n, none)
  local_definition ip port (uid, n, some e) = node_create_local env out ip port false

  merge_peer : Config → Config → Config
  merge_peer own peer = record peer { pulse = own.pulse; plugins = own.plugins }

  finish_loaded : String → Daemon CliReply
  finish_loaded peer = do
    modify (log_event (spawned server_setup))
    l ← get_local_member env
    now ← gets (λ w. env.now w.trace)
    set_last_hc_response l.0 now
    modify (log_event (hung_up peer))
    pure (CliReply.succeeded "Successfully joined cluster")

  finish_join : String → Error → Daemon CliReply
  unfolding finish_loaded
  finish_join peer (some e) = pure (CliReply.failed 8 "Failed to write config. Joined failed.")
  finish_join peer none = do load env; finish_loaded peer

  take_config : String → Option Config → Daemon CliReply
  unfolding merge_peer finish_join
  take_config peer none = pure (CliReply.failed 7 "Unable to unmarshal config node.")
  take_config peer (some c) = do
    modify (λ w. record w { config = merge_peer w.config c })
    e ← save env
    finish_join peer e

  take_keys : String → Option Config → Error → Daemon CliReply
  unfolding take_config
  take_keys peer c (some e) = pure (CliReply.failed 6 e)
  take_keys peer c none = take_config peer c

  take_answer : String → String → JoinAnswer → Daemon CliReply
  unfolding take_keys
  take_answer ip peer (JoinAnswer.unreachable e) =
      pure (CliReply.failed 4 "Join failure. Unable to connect to host.")
  take_answer ip peer (JoinAnswer.refused message) = pure (CliReply.failed 5 message)
  take_answer ip peer (JoinAnswer.accepted c crt key) = do
    create_folder out.disk
    store_file out.disk ca_crt crt
    store_file out.disk ca_key key
    e ← gen_tls_keys out.disk ip
    take_keys peer c e

  ask_peer : String → String → String → Created → Daemon CliReply
  unfolding take_answer
  ask_peer ip peer token (uid, n, some e) =
      pure (CliReply.failed 1 "Join failure. Unable to generate local node definition")
  ask_peer ip peer token (uid, n, none) = do
    answer ← gets (λ w. out.peer_answer w.trace peer (Request.join n uid token))
    modify (log_event (asked peer (Request.join n uid token)))
    take_answer ip peer answer

  join_named : String → String → String → String → Option String → Daemon CliReply
  unfolding local_definition ask_peer
  join_named ip port peer token none = do
    e ← gets (λ w. out.hostname_error w.trace)
    pure (CliReply.failed 10 e)
  join_named ip port peer token (some h) = do
    n ← gets (λ w. node_get_by_hostname w.config h)
    r ← local_definition ip port n
    ask_peer ip peer token r

  join_dialled : String → String → String → String → Error → Daemon CliReply
  unfolding join_named
  join_dialled ip port peer token (some e) = pure (CliReply.failed 0 e)
  join_dialled ip port peer token none = do
    h ← gets (λ w. env.hostname w.trace)
    join_named ip port peer token h

  -- CLIServer.Join: this machine's address and port, those of the node to ask, and the token
  unfoldable pub join : String → String → String → String → String → Daemon CliReply
  unfolding join_dialled
  join ip port peer_ip peer_port token = do
    clustered ← gets (λ w. cluster_check w.config)
    if clustered
        then pure (CliReply.failed 9 "Unable to join as PulseHA is already in a cluster.")
        else if not (in_port_range (atoi port).0)
        then pure (CliReply.failed 9 "Invalid port range")
        else (do
          e ← gets (λ w. out.dial_peer w.trace peer_ip peer_port)
          join_dialled ip port (concat (peer_ip ∷ ":" ∷ peer_port ∷ [])) token e)
