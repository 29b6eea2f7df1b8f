-- ===== src/Joining/Admitting.antt =====
-- Join of src/pulseha/server.go: a node of the cluster answers a machine that wants to join.
pub mod Judged
use pulseha.Base.{
  ℕ, String, List, [], ◌∷◌, Bool, true, false, not, ◌||◌, Option, none, some, str_eq, ltb, ◌==◌,
  if◌then◌else◌, concat, is_some,
}
use pulseha.Base.Int.{ℤ, pos, ltb_ℤ}
use pulseha.Strconv.{atoi}
use pulseha.Exec.{Exec, pure, panic, exit, gets, modify, skip, for_each, deref, ◌>>=◌, ◌>>◌}
use pulseha.GoMap.{GoMap, get, put, empty}
use pulseha.Config.{Config, Node, Error, no_node, cluster_check}
use pulseha.ConfigFile.{save, load, update_value}
use pulseha.Nodes.{
  node_add, node_delete, node_exists_by_uuid, nodes_clear_local, node_get_by_hostname,
}
use pulseha.Groups.{gen_group_name, group_clear_local}
use pulseha.World.{
  World, Env, Daemon, Trace, Request, LogLevel, spawned, server_setup, asked, hung_up, log_event,
}
use pulseha.Member.{set_last_hc_response, log}
use pulseha.MemberList.{get_local_member}
use pulseha.Network.{group_assign, set_ifaces}
use pulseha.Server.{reload, sync_config}
use pulseha.Security.{
  Disk, sha256_matches, create_folder, store_file, generate_ca_cert, gen_tls_keys, ca_crt, ca_key,
}
use pulseha.CliServer.{CliReply}
use pulseha.Joining.{Outside, JoinAnswer, Created, in_port_range, node_create_local, set_config}

module _ (env : Env) (out : Outside) where
  -- A file that cannot be read ends the process.
  send_keys : String → String → Option String → Daemon JoinAnswer
  send_keys uid crt none = exit
  send_keys uid crt (some key) = do
    c ← gets (λ w. w.config)
    log env LogLevel.info (concat (uid ∷ " has joined the cluster" ∷ []))
    pure (JoinAnswer.accepted (some c) crt key)

  send_certificate : String → Option String → Daemon JoinAnswer
  unfolding send_keys
  send_certificate uid none = exit
  send_certificate uid (some crt) = do
    crt_there ← gets (λ w. out.disk.exists w.trace ca_crt)
    key_there ← gets (λ w. out.disk.exists w.trace ca_key)
    key ← gets (λ w. out.disk.read w.trace ca_key)
    if not crt_there || not key_there then exit else send_keys uid crt key

  reload_and_send : String → Daemon JoinAnswer
  unfolding send_certificate
  reload_and_send uid = do
    reload env
    crt ← gets (λ w. out.disk.read w.trace ca_crt)
    send_certificate uid crt

  warn_unsynced : Error → Daemon Unit
  warn_unsynced none = skip
  warn_unsynced (some e) =
      log env LogLevel.warning "Unable to sync config when a join attempt was made"

  -- What is done once the node is in the configuration, or is deleted from it again.
  welcome : String → Daemon JoinAnswer
  unfolding warn_unsynced reload_and_send
  welcome uid = do e ← sync_config env; warn_unsynced e; reload_and_send uid

  undone : String → Config × Error → Daemon JoinAnswer
  unfolding welcome
  undone uid (c, some e) =
      pure (JoinAnswer.refused "Failed to clean up after a failed join attempt")
  undone uid (c, none) = do set_config c; welcome uid

  -- After Save: with an error the node is deleted again, and the join goes on.
  admit : String → Error → Daemon JoinAnswer
  unfolding undone
  admit uid none = welcome uid
  admit uid (some e) = do
    there ← gets (λ w. node_exists_by_uuid w.config uid)
    r ← gets (λ w. node_delete w.config uid)
    if there then undone uid r else welcome uid

  admit_node : String → Config × Error → Daemon JoinAnswer
  unfolding admit
  admit_node uid (c, some e) = pure (JoinAnswer.refused "Failed to add new node to membership list")
  admit_node uid (c, none) = do set_config c; e ← save env; admit uid e

  admit_decoded : String → Option Node → Daemon JoinAnswer
  unfolding admit_node
  admit_decoded uid none = pure (JoinAnswer.refused "Unable to unmarshal config node.")
  admit_decoded uid (some n) = do
    known ← gets (λ w. node_exists_by_uuid w.config uid)
    r ← gets (λ w. node_add w.config uid n)
    if known
        then pure (
            JoinAnswer.refused (
              concat ("unable to join cluster as a node with id " ∷ uid ∷ " already exists!" ∷ [])))
        else admit_node uid r

  -- Server.Join, with the node that the request describes, if that can be decoded
  unfoldable pub serve_join : String → Option Node → String → Daemon JoinAnswer
  unfolding admit_decoded
  serve_join uid node token = do
    clustered ← gets (λ w. cluster_check w.config)
    valid ← gets (λ w. sha256_matches out.sha256 token w.config.pulse.cluster_token)
    if not clustered
        then pure (JoinAnswer.refused "This node is not in a configured cluster.")
        else if not valid
        then (do
          log env LogLevel.warning
              (concat (uid ∷ " attempted to join with an invalid cluster token" ∷ []))
          pure (JoinAnswer.refused "Invalid cluster token"))
        else admit_decoded uid node
