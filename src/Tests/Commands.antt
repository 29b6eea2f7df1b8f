-- ===== src/Tests/Commands.antt =====
-- Tests of the commands of the local client.
use pulseha.Base.{true, none, ◌≡◌, refl}
use pulseha.Exec.{returned, for_each}
use pulseha.GoMap.{lookup}
use pulseha.Config.{get_local_node, cluster_check, node_count, validate}
use pulseha.ConfigFile.{save}
use pulseha.Nodes.{nodes_clear_local}
use pulseha.Groups.{group_clear_local}
use pulseha.World.{World, Status, with_lock}
use pulseha.Member.{broadcast, connect, send}
use pulseha.MemberList.{reset}
use pulseha.Network.{make_local_passive, make_group_passive, bring_down_ips}
use pulseha.Server.{shutdown}
use pulseha.CliServer.{Command, CliReply, run}
use pulseha.CliServer.Leaving.{IsLeft, leave-IsLeft}
use pulseha.Tests.{node_a, pair, calm, daemon, net}

abbrev machine : World
machine = daemon Status.passive Status.active

in_cluster : cluster_check pair ≡ true
unfolding cluster_check
in_cluster = refl

a_local : get_local_node pair ≡ (node_a, none)
unfolding get_local_node lookup
a_local = refl

goodbye :
    (run calm net Command.leave machine).0
    ≡ returned (CliReply.succeeded "Successfully left from cluster")
unfolding run get_local_node lookup broadcast connect send with_lock shutdown make_local_passive
    make_group_passive bring_down_ips reset save validate cluster_check nodes_clear_local
    group_clear_local node_count for_each
goodbye = refl

leave_example :
    IsLeft
      (CliReply.succeeded "Successfully left from cluster")
      (run calm net Command.leave machine).1
leave_example =
    leave-IsLeft calm net node_a machine in_cluster a_local
      (CliReply.succeeded "Successfully left from cluster") goodbye
