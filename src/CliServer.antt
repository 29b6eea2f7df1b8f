-- ===== src/CliServer.antt =====
-- src/pulseha/cli_server.go: the commands of the local client that change the cluster, without Create,
-- Join, Token, TLS, Config and Network. The mutex of the server makes one command at a time of them.
pub mod Leaving
use pulseha.Base.{
  ℕ, String, List, [], ◌∷◌, Bool, true, false, not, ◌||◌, Option, none, some, str_eq, ltb, ◌==◌,
  if◌then◌else◌, concat, is_some,
}
use pulseha.Exec.{Exec, pure, gets, modify, skip, deref, ◌>>=◌, ◌>>◌}
use pulseha.Config.{
  Config, Node, Error, cluster_check, node_count, get_local_node, get_node_by_hostname,
  get_group_iface,
}
use pulseha.ConfigFile.{save}
use pulseha.Nodes.{node_delete, nodes_clear_local, node_get_by_hostname}
use pulseha.Groups.{Net, group_new, group_delete, group_clear_local, group_ip_add}
use pulseha.World.{World, Env, Daemon, Status, Request, log_event, folder_deleted}
use pulseha.Member.{set_status, connect, send, broadcast}
use pulseha.MemberList.{get_active_member, get_member_by_hostname, member_remove_by_hostname}
use pulseha.Network.{group_assign, group_unassign, group_ip_remove}
use pulseha.Failover.{promote_member}
use pulseha.Security.{cert_dir}
use pulseha.Server.{shutdown, sync_config}

pub data Command : Type 0 where
  leave : Command
  remove_node promote new_group delete_group : String → Command
  add_ips remove_ips : String → List String → Command
  -- group, interface and node
  assign unassign : String → String → String → Command

pub data CliReply : Type 0 where
  succeeded : String → CliReply
  -- with ErrorCode
  failed : ℕ → String → CliReply

abbrev pub cluster_required : CliReply
cluster_required = CliReply.failed 1 "You must be in a configured cluster to complete this action."

abbrev set_config : Config → Daemon Unit
set_config c = modify (λ w. record w { config = c })

module _ (env : Env) (net : Net) where
  -- Save, with an error only logged, and SyncConfig.
  save_and_sync : Daemon Error
  save_and_sync = do save env; sync_config env

  -- Most commands end like this.
  finish : String → ℕ → Error → Daemon CliReply
  unfolding save_and_sync
  finish message code (some e) = pure (CliReply.failed code e)
  finish message code none = do save_and_sync; pure (CliReply.succeeded message)

  tell_leaving : ℕ → Request → Daemon Unit
  tell_leaving count r = if ltb 1 count then (do broadcast env r; skip) else skip

  forget_cluster : Daemon Unit
  forget_cluster = do
    shutdown env
    modify (λ w. record w { config = group_clear_local (nodes_clear_local w.config) })

  left : Error → ℕ → CliReply
  left (some e) count =
      CliReply.failed 2
        "PulseHA successfully removed from cluster but could not update local config"
  left none count =
      if count == 1
      then CliReply.succeeded "Successfully dismantled cluster"
      else CliReply.succeeded "Successfully left from cluster"

  -- DeleteFolder, with a failure only logged
  remove_certs : Error → Daemon Unit
  remove_certs (some e) = skip
  remove_certs none = modify (log_event (folder_deleted cert_dir))

  left_saved : Error → Daemon CliReply
  unfolding remove_certs left
  left_saved e = do remove_certs e; after ← gets (λ w. node_count w.config); pure (left e after)

  -- CLIServer.Leave
  leave_as : Node × Error → Daemon CliReply
  unfolding tell_leaving forget_cluster left_saved
  leave_as (n, some e) =
      pure (CliReply.failed 3 "You must be in a configured cluster to complete this action.")
  leave_as (n, none) = do
    count ← gets (λ w. node_count w.config)
    tell_leaving count (Request.leave n.hostname)
    forget_cluster
    e ← save env
    left_saved e

  removed_other : Config × Error → Daemon CliReply
  removed_other (c, some e) = pure (CliReply.failed 4 e)
  removed_other (c, none) = do
    set_config c
    save env
    pure (CliReply.succeeded "Successfully left from cluster")

  remove_known : String → String → String × Node × Error → Daemon CliReply
  unfolding removed_other forget_cluster
  remove_known h own (uid, n, some e) =
      pure
        (CliReply.failed 3 (concat ("Unable to retrieve " ∷ h ∷ " from local configuration" ∷ [])))
  remove_known h own (uid, n, none) = do
    found ← get_member_by_hostname env h
    p ← deref found
    set_status p Status.leaving
    if str_eq h own
        then (do
          forget_cluster
          save env
          pure (CliReply.succeeded "Successfully left from cluster"))
        else (do
          member_remove_by_hostname h
          r ← gets (λ w. node_delete w.config uid)
          removed_other r)

  remove_as : String → Node × Error → Daemon CliReply
  unfolding remove_known
  remove_as h (n, some e) =
      pure (CliReply.failed 5 "Unable to retrieve local node from configuration")
  remove_as h (n, none) = do
    r ← gets (λ w. get_node_by_hostname w.config h)
    remove_known h n.hostname r

  -- CLIServer.Remove
  remove : String → Daemon CliReply
  unfolding remove_as tell_leaving
  remove h = do
    active ← gets (λ w. (get_active_member w).0)
    count ← gets (λ w. node_count w.config)
    if str_eq h active
        then pure (
            CliReply.failed 2
              "Unable to remove active node. Please promote another node and try again")
        else (do
          tell_leaving count (Request.remove h)
          l ← gets (λ w. get_local_node w.config)
          remove_as h l)

  -- CLIServer.NewGroup
  create_group : String → Daemon CliReply
  unfolding finish
  create_group given = do
    r ← gets (λ w. group_new w.config given)
    set_config r.0
    finish (concat (r.1 ∷ " successfully added." ∷ [])) 2 none

  -- CLIServer.DeleteGroup
  drop_group : String → Daemon CliReply
  unfolding finish
  drop_group name = do
    r ← gets (λ w. group_delete w.config name)
    set_config r.0
    finish (concat (name ∷ " successfully deleted." ∷ [])) 2 r.1

  -- The active member is told to bring the addresses up.
  bring_up_on : ℕ → List String → String → String × Error → Daemon CliReply
  bring_up_on a ips name (iface, some e) = pure (CliReply.failed 6 e)
  bring_up_on a ips name (iface, none) = do
    e ← send env a (Request.bring_up_ip iface ips)
    pure (elim e [
      | some text ↦ CliReply.failed 4 text
      | none ↦ CliReply.succeeded (concat ("IP address(es) successfully added to " ∷ name ∷ []))
    ])

  after_connect : ℕ → List String → String → String → Error → Daemon CliReply
  unfolding bring_up_on
  after_connect a ips name host (some e) = pure (CliReply.failed 3 e)
  after_connect a ips name host none = do
    iface ← gets (λ w. get_group_iface w.config host name)
    bring_up_on a ips name iface

  ips_added : String → List String → Error → Daemon CliReply
  unfolding save_and_sync after_connect
  ips_added name ips (some e) = pure (CliReply.failed 2 e)
  ips_added name ips none = do
    save_and_sync
    active ← gets get_active_member
    a ← deref active.1
    e ← connect env a
    after_connect a ips name active.0 e

  -- CLIServer.GroupIPAdd
  add_group_ips : String → List String → Daemon CliReply
  unfolding ips_added
  add_group_ips name ips = do
    r ← gets (λ w. group_ip_add net w.config (is_some (get_active_member w).1) name ips)
    set_config r.0
    ips_added name ips r.1

  bring_down_on : ℕ → List String → String → String × Error → Daemon CliReply
  bring_down_on a ips name (iface, some e) = pure (CliReply.failed 5 e)
  bring_down_on a ips name (iface, none) = do
    send env a (Request.bring_down_ip iface ips)
    pure (CliReply.succeeded (concat ("IP address(es) successfully removed from " ∷ name ∷ [])))

  ips_removed : String → List String → Error → Daemon CliReply
  unfolding save_and_sync bring_down_on
  ips_removed name ips (some e) = pure (CliReply.failed 4 e)
  ips_removed name ips none = do
    save_and_sync
    active ← gets get_active_member
    a ← deref active.1
    connect env a
    iface ← gets (λ w. get_group_iface w.config active.0 name)
    bring_down_on a ips name iface

  -- No addresses arrive as a nil slice.
  lacks_parameters : String → List String → Bool
  lacks_parameters name [] = true
  lacks_parameters name (ip ∷ ips) = str_eq name ""

  -- CLIServer.GroupIPRemove
  remove_group_ips : String → List String → Daemon CliReply
  unfolding ips_removed lacks_parameters
  remove_group_ips name ips = do
    active ← gets (λ w. (get_active_member w).1)
    if lacks_parameters name ips
        then pure (CliReply.failed 2 "Unable to process RPC call. Required parameters: Ips, Name")
        else if not (is_some active)
        then pure (
            CliReply.failed 3
              "Unable to remove IP(s) to group as there no active node in the cluster.")
        else (do e ← group_ip_remove env name ips; ips_removed name ips e)

  on_node : (String → Daemon Error) → String → String × Node × Error → Daemon CliReply
  unfolding finish
  on_node act message (uid, n, some e) = pure (CliReply.failed 2 e)
  on_node act message (uid, n, none) = do e ← act uid; finish message 3 e

  -- CLIServer.GroupAssign
  assign_group : String → String → String → Daemon CliReply
  unfolding on_node
  assign_group g iface h = do
    n ← gets (λ w. node_get_by_hostname w.config h)
    on_node (λ uid. group_assign env g uid iface)
        (concat (g ∷ " assigned to interface " ∷ iface ∷ " on node " ∷ h ∷ [])) n

  -- CLIServer.GroupUnassign
  unassign_group : String → String → String → Daemon CliReply
  unfolding on_node
  unassign_group g iface h = do
    n ← gets (λ w. node_get_by_hostname w.config h)
    on_node (λ uid. group_unassign env g uid iface)
        (concat (g ∷ " unassigned from interface " ∷ iface ∷ " on node " ∷ h ∷ [])) n

  promoted : String → Error → CliReply
  promoted h (some e) = CliReply.failed 2 e
  promoted h none = CliReply.succeeded (concat ("Successfully promoted member " ∷ h ∷ []))

  -- CLIServer.Promote
  promote_node : String → Daemon CliReply
  unfolding promoted
  promote_node h = do e ← promote_member env h; pure (promoted h e)

  perform : Command → Daemon CliReply
  unfolding leave_as remove create_group drop_group add_group_ips remove_group_ips assign_group
      unassign_group promote_node
  perform Command.leave = do l ← gets (λ w. get_local_node w.config); leave_as l
  perform (Command.remove_node h) = remove h
  perform (Command.promote h) = promote_node h
  perform (Command.new_group name) = create_group name
  perform (Command.delete_group name) = drop_group name
  perform (Command.add_ips name ips) = add_group_ips name ips
  perform (Command.remove_ips name ips) = remove_group_ips name ips
  perform (Command.assign g iface h) = assign_group g iface h
  perform (Command.unassign g iface h) = unassign_group g iface h

  -- Every command starts with ClusterCheck.
  unfoldable pub run : Command → Daemon CliReply
  unfolding perform
  run c = do
    clustered ← gets (λ w. cluster_check w.config)
    if clustered then perform c else pure cluster_required
