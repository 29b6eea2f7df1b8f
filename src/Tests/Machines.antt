-- ===== src/Tests/Machines.antt =====
-- Tests of two machines: the active one, "a", and "b", which is passive, reach one another.
use pulseha.Base.{ℕ, false, none, some, ◌≡◌, ◌≢◌, refl, ◌==◌, Bool-cases, inl, inr}
use pulseha.GoMap.{lookup}
use pulseha.Exec.{Outcome, returned, panicked, exited, blocked}
use pulseha.Config.{Error, get_local_node, cluster_check, get_node_hostname_by_address}
use pulseha.World.{World, Env, Status, Dial}
use pulseha.Member.Sending.{IsReachable, CanDial}
use pulseha.MemberList.{get_active_member}
use pulseha.Failover.{promote_member}
use pulseha.Failover.Takeover.{IsActivated}
use pulseha.Server.{Reply}
use pulseha.Cluster.{Peer, IsDelivered, call_of, receive, replay}
use pulseha.Cluster.Handover.{IsProposal, IsHandedOver}
use pulseha.Cluster.Roles.{promote_member-roles}
use pulseha.Tests.{distinct_texts, node_a, node_b, pulse, pair, calm, daemon, calm-CanDial}

abbrev pub here : World
here = daemon Status.active Status.passive

-- The daemon on "b".
abbrev there : World
there = record (daemon Status.active Status.passive) {
  config = record pair { pulse = record pulse { local_node = "id-b" } };
}

abbrev peer : Peer
peer = record {
  env = record calm { hostname = λ _. some "b" };
  start = there;
  address = "10.0.0.1";
  member = 1;
}

-- A call has no error if its handler returned a reply without one.
abbrev error_of : Outcome Reply → Error
error_of (returned Reply.unauthorized) = some "unauthorized"
error_of (returned x) = none
error_of r = some "unavailable"

abbrev wired : Peer → Env
wired q = record calm {
  dial = λ _ _ _ _. Dial.connected;
  answers = λ t p r. error_of (receive q (call_of r) (replay q t)).0;
}

error_of_reply :
    (r : Outcome Reply) (x : Reply) → r ≡ returned x → x ≢ Reply.unauthorized → error_of r ≡ none
error_of_reply (returned Reply.unauthorized) x e ne = absurd (ne cc)
error_of_reply (returned (Reply.replied b m)) x e ne = refl
error_of_reply (returned (Reply.scored z)) x e ne = refl
error_of_reply (returned Reply.logged) x e ne = refl
error_of_reply panicked x e ne = cc
error_of_reply exited x e ne = cc
error_of_reply blocked x e ne = cc

wired-IsDelivered : (q : Peer) → CanDial q.env → IsDelivered (wired q) q
wired-IsDelivered q can = record {
  own = calm-CanDial;
  peer = can;
  dials = λ t ip port. refl;
  answers = λ t r x e ne. error_of_reply (receive q (call_of r) (replay q t)).0 x e ne;
}

pub here-IsLinked : (q : ℕ) → IsReachable (here.heap q)
here-IsLinked q = elim (Bool-cases (q == 0)) [
  | inl first ↦ record {
    link = record { connection = false; requester = false };
    present = rw first refl;
    usable = inl refl;
  }
  | inr later ↦ record {
    link = record { connection = false; requester = false };
    present = rw later refl;
    usable = inl refl;
  }
]

pub a_local : get_local_node here.config ≡ (node_a, none)
unfolding get_local_node cluster_check lookup
a_local = refl

b_local : get_local_node there.config ≡ (node_b, none)
unfolding get_local_node cluster_check lookup
b_local = refl

a_known : get_node_hostname_by_address there.config "10.0.0.1" ≡ ("a", none)
unfolding get_node_hostname_by_address
a_known = refl

proposal : IsProposal peer there here node_a 0 "b"
unfolding get_active_member replay
proposal = record {
  local = a_local;
  own = refl;
  former = refl;
  linked = record { free = refl; reachable = λ q m. here-IsLinked q };
  named = distinct_texts "b" "" refl;
  other = distinct_texts "b" "a" refl;
  found = refl;
  waiting = refl;
  unaware = refl;
  sender = "a";
  known = a_known;
}

promote_member-roles_example :
    IsHandedOver here 0 (promote_member (wired peer) "b" here)
    × IsActivated there 1 (replay peer (promote_member (wired peer) "b" here).1.trace)
promote_member-roles_example =
    promote_member-roles (wired peer) peer (wired-IsDelivered peer calm-CanDial) there here 0 node_a
      node_b 1 proposal
      (record {
        local = b_local;
        found = refl;
        linked = record { free = refl; reachable = λ q m. here-IsLinked q };
      })

-- A machine that was cloned: it goes by "a" as well, and is passive.
abbrev cloned : World
cloned = daemon Status.passive Status.passive

abbrev clone : Peer
clone = record peer { start = cloned }
