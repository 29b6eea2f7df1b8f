-- ===== src/Tests/Growth.antt =====
-- Tests of making and joining a cluster.
use pulseha.Base.{[], true, false, none, some, str_eq, ◌≡◌, ◌≢◌, refl, if◌then◌else◌}
use pulseha.Exec.{returned, for_each}
use mathlib.Core.Path.{subst}
use pulseha.Security.{create_folder, store_file, gen_tls_keys, generate_certs}
use pulseha.Member.{set_last_hc_response}
use pulseha.GoMap.{Distinct, merge, lookup, insert, empty}
use pulseha.Config.{Config, get_local_node, Node, cluster_check, validate}
use pulseha.ConfigFile.{save, update_value, load}
use pulseha.Strconv.{parse_int}
use pulseha.JsonHelper.{set_struct_field_by_tag}
use pulseha.Nodes.{node_exists_by_uuid, node_add, node_get_by_hostname}
use pulseha.World.{World, Status, with_lock}
use pulseha.Member.{broadcast, connect, send, log}
use pulseha.Security.{Disk}
use pulseha.CliServer.{CliReply}
use pulseha.Joining.{Outside, JoinAnswer, node_create_local, add_iface}
use pulseha.Joining.Asking.{join}
use pulseha.Joining.Admitting.{serve_join}
use pulseha.Joining.Admitting.Judged.{IsJudged, serve_join-IsJudged}
use pulseha.MemberList.{get_local_member, new_member}
use pulseha.Joining.Asking.Joined.{AnswersHaveMaps, IsJoined, join-IsJoined}
use pulseha.Joining.Asking.Retry.{join_again}
use pulseha.Administration.{Order, administer}
use pulseha.Administration.Tokens.{administer-serve_join}
use pulseha.Tests.{pulse, pair, calm, daemon}

abbrev disk : Disk
disk = record {
  exists = λ _ _. true;
  read = λ _ path. some "pem";
  can_create = λ _ _. true;
  new_key = λ _. some "key";
  own_certificate = λ _ _ _. some "cert";
  certificate = λ _ _ _ _ _. some "cert";
  pem_block = λ text. some text;
  parse_certificate = λ _. true;
  parse_key = λ _. true;
}

-- The token "secret" has the hash "h", and the peer refuses.
abbrev outside : Outside
outside = record {
  disk = disk;
  hostname_error = λ _. "exit status 1";
  uuid = λ _. "id-new";
  random_token = λ _. some "secret";
  sha256 = λ t. if str_eq t "secret" then "h" else t;
  dial_peer = λ _ _ _. none;
  peer_answer = λ _ _ _. JoinAnswer.refused "Invalid cluster token";
}

abbrev guarded : World
guarded = record (daemon Status.active Status.passive) {
  config = record pair { pulse = record pulse { cluster_token = "h" } };
}

abbrev node_c : Node
node_c = record { hostname = "c"; ip = "10.0.0.3"; port = "49152"; ip_groups = empty }

wrong_token :
    (serve_join calm outside "id-c" (some node_c) "guess" guarded).0
    ≡ returned (JoinAnswer.refused "Invalid cluster token")
unfolding serve_join cluster_check log broadcast connect send with_lock
wrong_token = refl

serve_join_example :
    IsJudged outside.sha256 "id-c"
      (some node_c)
      "guess"
      guarded
      (JoinAnswer.refused "Invalid cluster token")
      (serve_join calm outside "id-c" (some node_c) "guess" guarded).1
serve_join_example =
    serve_join-IsJudged calm outside "id-c" (some node_c) "guess" guarded
      (JoinAnswer.refused "Invalid cluster token") wrong_token

abbrev alone : World
alone = record (daemon Status.unavailable Status.unavailable) {
  config = record pair { nodes = empty };
  members = [];
}

abbrev turned_down : CliReply
turned_down = CliReply.failed 5 "Invalid cluster token"

peer_refuses :
    (join calm outside "10.0.0.1" "49152" "10.0.0.2" "49152" "guess" alone).0 ≡ returned turned_down
unfolding join node_create_local add_iface cluster_check update_value save validate node_add
    node_get_by_hostname for_each lookup insert set_struct_field_by_tag parse_int
peer_refuses = refl

join_again_example :
    let after = (join calm outside "10.0.0.1" "49152" "10.0.0.2" "49152" "guess" alone).1 in
    join calm outside "10.0.0.1" "49152" "10.0.0.2" "49152" "secret" after
    ≡ (returned (CliReply.failed 9 "Unable to join as PulseHA is already in a cluster."), after)
join_again_example =
    join_again calm outside "10.0.0.1" "49152" "10.0.0.2" "49152" "guess" alone turned_down
      peer_refuses refl "10.0.0.1" "49152" "10.0.0.2" "49152" "secret"

in_cluster : cluster_check guarded.config ≡ true
unfolding cluster_check
in_cluster = refl

unused_id : node_exists_by_uuid guarded.config "id-c" ≡ false
unfolding lookup
unused_id = refl

administer_example :
    (serve_join calm outside "id-c"
      (some node_c)
      "secret"
      (administer calm outside Order.new_token guarded).1).0
    ≢ returned (JoinAnswer.refused "Invalid cluster token")
administer_example =
    administer-serve_join calm outside "secret" "id-c" node_c guarded in_cluster refl unused_id
      "Invalid cluster token"

-- A peer that accepts.
abbrev welcoming : Outside
welcoming = record outside { peer_answer = λ _ _ _. JoinAnswer.accepted (some pair) "crt" "key" }

pair-maps : Distinct pair.nodes.entries × Distinct pair.groups.entries
unfolding lookup
pair-maps = ((refl, (refl, tt)), (refl, (refl, tt)))

welcoming-AnswersHaveMaps : AnswersHaveMaps welcoming
welcoming-AnswersHaveMaps t peer r c crt key e =
    let same : pair ≡ c = cc in
    subst (λ (d : Config). Distinct d.nodes.entries × Distinct d.groups.entries) same pair-maps

let_in :
    (join calm welcoming "10.0.0.1" "49152" "10.0.0.2" "49152" "secret" alone).0
    ≡ returned (CliReply.succeeded "Successfully joined cluster")
unfolding join node_create_local add_iface cluster_check update_value save validate node_add
    node_get_by_hostname for_each lookup insert set_struct_field_by_tag parse_int load
    get_local_member create_folder store_file gen_tls_keys generate_certs merge with_lock
    get_local_node new_member set_last_hc_response
let_in = refl

join-IsJoined_example :
    IsJoined welcoming "10.0.0.2:49152" "secret"
      (join calm welcoming "10.0.0.1" "49152" "10.0.0.2" "49152" "secret" alone).1
join-IsJoined_example =
    join-IsJoined calm welcoming welcoming-AnswersHaveMaps "10.0.0.1" "49152" "10.0.0.2" "49152"
      "secret" "Successfully joined cluster" alone let_in
