-- ===== src/Tests/Roles.antt =====
-- Tests of roles and requests on the cluster of two machines.
use pulseha.Config.{Node}
use pulseha.MemberList.{find_in, is_passive}
use pulseha.Base.{
  [], ◌∷◌, ℕ, In, sym, ap, ◌∙◌, false≢true, String, true, false, none, some, ◌≡◌, ◌≢◌, refl, arith,
  inl, inr,
}
use pulseha.Exec.{returned}
use pulseha.Config.{get_local_node, cluster_check, get_node_hostname_by_address}
use pulseha.World.{World, Env, Status}
use pulseha.GoMap.{lookup}
use pulseha.World.{with_lock}
use pulseha.Member.{log, connect, send, broadcast}
use pulseha.MemberList.{get_active_member, get_member_by_hostname}
use pulseha.Failover.{get_next_active_member, promote_member, make_active, monitor_received}
use pulseha.Failover.Election.{IsCovered, IsElection, get_next_active_member-IsElection}
use pulseha.Failover.Promotion.{IsRefused, promote_member_error}
use pulseha.Failover.Watch.{IsWatcher, IsWaiting, monitor_received_waits, monitor_received_ends}
use pulseha.Failover.Deadline.{IsOnlyPassive, monitor_received-IsTakenOver}
use pulseha.Failover.Race.{monitor_received_first}
use pulseha.Failover.Accession.{IsTakenOver}
use pulseha.Member.Sending.{IsReachable}
use pulseha.HealthCheck.{monitor_conns}
use pulseha.HealthCheck.Connections.{IsMonitored}
use pulseha.HealthCheck.Marking.{Settled, monitor_conns-Settled}
use pulseha.Base.Int.{negsuc}
use pulseha.Score.{second_loop}
use pulseha.Score.Winner.{IsWon, second_loop-IsWon}
use pulseha.Server.{Call, Reply, serve}
use pulseha.Server.Guard.{IsStranger, IsTurnedAway, serve-IsTurnedAway, serve-promote_other}
use pulseha.Tests.{distinct_texts, node_a, node_b, pair, calm, daemon, calm-CanDial}

-- "a" is active and "b" passive, or both are passive.
abbrev usual : World
usual = daemon Status.active Status.passive

abbrev headless : World
headless = daemon Status.passive Status.passive

a_named : node_a.hostname ≢ ""
a_named = distinct_texts "a" "" refl

pair-IsCovered : IsCovered pair.nodes.entries usual
pair-IsCovered e (inl here) = rw here (a_named, (0, refl))
pair-IsCovered e (inr (inl here)) = rw here (distinct_texts "b" "" refl, (1, refl))
pair-IsCovered e (inr (inr nowhere)) = elim nowhere [ ]

-- The passive "b" is next.
get_next_active_member_example :
    IsElection pair.nodes.entries usual (get_next_active_member calm usual)
get_next_active_member_example = get_next_active_member-IsElection calm usual refl pair-IsCovered

next_is_b : (get_next_active_member calm usual).0 ≡ returned (some 1)
unfolding get_next_active_member get_member_by_hostname with_lock
next_is_b = refl

already_active :
    (promote_member calm "a" usual).0
    ≡ returned (some "unable to promote member as it is already active")
unfolding promote_member get_member_by_hostname get_active_member log broadcast connect send
    with_lock
already_active = refl

promote_member_error_example : IsRefused "a" usual
promote_member_error_example =
    promote_member_error calm "a" usual "unable to promote member as it is already active" a_named
      refl already_active

-- "b" cannot be told.
abbrev deaf : Env
deaf = record calm { answers = λ _ _ _. some "refused" }

told_nothing : (make_active deaf 1 headless).0 ≡ returned (some "refused")
unfolding make_active get_local_node connect send lookup
told_nothing = refl

nobody_active : (get_active_member headless).1 ≡ none
unfolding get_active_member
nobody_active = refl

pub a_local : get_local_node pair ≡ (node_a, none)
unfolding get_local_node lookup
a_local = refl

pub a_watches : (s : Status) → IsWatcher (daemon s Status.active) 0
unfolding cluster_check
a_watches s = record { node = node_a; free = refl; clustered = refl; local = a_local; found = refl }

-- The last health check came three seconds ago, and the limit is ten.
monitor_received_waits_example :
    IsWaiting
      (daemon Status.passive Status.active)
      (monitor_received calm 0 (daemon Status.passive Status.active))
monitor_received_waits_example =
    monitor_received_waits calm 0 0 (daemon Status.passive Status.active) (a_watches Status.passive)
      refl refl

active_ends :
    monitor_received calm 0 (daemon Status.active Status.active)
    ≡ (returned true, daemon Status.active Status.active)
active_ends =
    monitor_received_ends calm 0 0 (daemon Status.active Status.active) (a_watches Status.active)
      refl

nobodys_address : IsStranger pair (some "192.0.2.7")
unfolding get_node_hostname_by_address
nobodys_address h = cc

serve_stranger_example : IsTurnedAway usual (serve calm (some "192.0.2.7") (Call.promote "a") usual)
serve_stranger_example =
    serve-IsTurnedAway calm (some "192.0.2.7") (Call.promote "a") usual nobodys_address

address_of_b : get_node_hostname_by_address pair "10.0.0.2" ≡ ("b", none)
unfolding get_node_hostname_by_address
address_of_b = refl

others_promotion :
    serve calm (some "10.0.0.2") (Call.promote "b") usual
    ≡ (returned (Reply.replied false ""), usual)
others_promotion =
    serve-promote_other calm "10.0.0.2" "b" "b" node_a usual address_of_b a_local
      (distinct_texts "b" "a" refl)

a_watches_usual : IsWatcher usual 0
unfolding cluster_check
a_watches_usual = record {
  node = node_a;
  free = refl;
  clustered = refl;
  local = a_local;
  found = refl;
}

second_loop_example :
    IsWon pair.nodes.entries usual
      (negsuc 0)
      none
      (second_loop calm (negsuc 0) none pair.nodes.entries usual)
second_loop_example =
    second_loop-IsWon calm (negsuc 0) none pair.nodes.entries usual refl pair-IsCovered

-- "b" was active, and the last health check came 98 seconds ago.
abbrev pub silent : World
silent = daemon Status.passive Status.active

abbrev late : Env
late = record calm { now = λ _. 100000000000 }

pub daemon-IsReachable :
    (x y : Status) (q : ℕ) → In q (daemon x y).members → IsReachable ((daemon x y).heap q)
daemon-IsReachable x y q (inl here) = rw here (record {
  link = record { connection = false; requester = false };
  present = refl;
  usable = inl refl;
})
daemon-IsReachable x y q (inr (inl here)) = rw here (record {
  link = record { connection = false; requester = false };
  present = refl;
  usable = inl refl;
})
daemon-IsReachable x y q (inr (inr nowhere)) = elim nowhere [ ]

monitor_conns-Settled_example :
    ((monitor_conns calm usual).0 ≡ returned false)
    × Settled calm 1 (monitor_conns calm usual).1
    × IsMonitored calm "a" usual (monitor_conns calm usual).1
monitor_conns-Settled_example =
    monitor_conns-Settled calm usual 0 a_watches_usual refl (λ t p ip port. refl)
      (daemon-IsReachable Status.active Status.passive) 1 (inr (inl refl))
      (distinct_texts "b" "a" refl)

pub silent-IsCovered : IsCovered pair.nodes.entries silent
silent-IsCovered e (inl here) = rw here (a_named, (0, refl))
silent-IsCovered e (inr (inl here)) = rw here (distinct_texts "b" "" refl, (1, refl))
silent-IsCovered e (inr (inr nowhere)) = elim nowhere [ ]

pub a_only : IsOnlyPassive late 0 silent 0 (a_watches Status.passive)
a_only e q (inl here) found passive =
    ground (arith, sym found ∙ ap (λ (d : String × Node). find_in d.1.hostname silent) here)
a_only e q (inr (inl here)) found passive =
    let other : q ≡ 1 =
      ground (arith, sym found ∙ ap (λ (d : String × Node). find_in d.1.hostname silent) here) in
    absurd (false≢true (sym (ap (λ x. is_passive (silent.heap x).status) other) ∙ passive))
a_only e q (inr (inr nowhere)) found passive = elim nowhere [ ]

monitor_received_takes_over_example : IsTakenOver silent 0 (monitor_received late 0 silent)
monitor_received_takes_over_example =
    monitor_received-IsTakenOver late 0 silent 0 (a_watches Status.passive) calm-CanDial refl
      (daemon-IsReachable Status.passive Status.active) silent-IsCovered a_only refl

headless_clustered : cluster_check headless.config ≡ true
unfolding cluster_check
headless_clustered = refl

abbrev headless_watched : IsWatcher headless 0
headless_watched = record {
  node = node_a;
  free = refl;
  clustered = headless_clustered;
  local = a_local;
  found = refl;
}

-- "b" is passive as well, and the range meets "a" first.
monitor_received_first_example : IsTakenOver headless 0 (monitor_received late 0 headless)
monitor_received_first_example =
    monitor_received_first late 0 headless 0 headless_watched calm-CanDial "id-a"
      (("id-b", node_b) ∷ []) refl a_named refl (daemon-IsReachable Status.passive Status.passive)
      refl
