-- ===== src/Tests/Starting.antt =====
-- Tests of starting the daemon and of its signals.
use pulseha.Base.{[], ◌∷◌, true, false, none, some, ◌≡◌, ℕ, ◌==◌, refl}
use pulseha.Exec.{returned}
use pulseha.GoMap.{lookup, merge, insert}
use pulseha.Config.{get_local_node, cluster_check, validate, node_count}
use pulseha.ConfigFile.{decode}
use pulseha.World.{World, Status, Trace, Stored}
use pulseha.Member.Sending.{IsLinked}
use pulseha.MemberList.{find_in, load_members}
use pulseha.MemberList.Names.{IsListed}
use pulseha.Failover.Takeover.{IsActivated}
use pulseha.Startup.{setup_members, on_signal, Signal}
use pulseha.Startup.Roles.{IsComeUp, setup_members-IsComeUp}
use pulseha.Startup.Alone.{setup_members-active}
use pulseha.Startup.Restart.{no_hooks, reloaded, on_signal-IsComeUp}
use pulseha.Tests.{node_a, pair, calm, daemon, distinct_texts, calm-CanDial}
use pulseha.Tests.Machines.{here-IsLinked, a_local}

-- No member yet.
abbrev fresh : World
fresh = record (daemon Status.active Status.passive) { members = [] }

fresh-IsListed : IsListed fresh
fresh-IsListed = record { unlocked = refl; distinct = tt; allocated = tt; clients = tt }

setup_members-IsComeUp_example : IsComeUp calm fresh node_a (setup_members calm fresh)
unfolding node_count
setup_members-IsComeUp_example =
    setup_members-IsComeUp calm node_a (distinct_texts "a" "" refl) fresh fresh-IsListed tt a_local
      refl

abbrev lonely : World
lonely = record fresh {
  config = record pair { nodes = record { made = true; entries = ("id-a", node_a) ∷ [] } };
}

alone_local : get_local_node lonely.config ≡ (node_a, none)
unfolding get_local_node cluster_check lookup
alone_local = refl

setup_members-active_example :
    (p : ℕ) × (find_in "a" (load_members lonely).1 ≡ some p)
    × IsActivated (load_members lonely).1 p (setup_members calm lonely).1
unfolding node_count
setup_members-active_example =
    setup_members-active calm node_a (distinct_texts "a" "" refl) lonely
      (record { unlocked = refl; distinct = tt; allocated = tt; clients = tt }) tt alone_local refl

-- The config file holds what is in memory.
abbrev running : World
running = record (daemon Status.active Status.passive) { file = Stored.holds pair }

running-IsLinked : IsLinked running
running-IsLinked = record { free = refl; reachable = λ q m. here-IsLinked q }

joined : cluster_check running.config ≡ true
unfolding cluster_check
joined = refl

still_valid : (t : Trace) → validate (calm.hostname t) (decode running.config pair) ≡ none
unfolding validate merge insert lookup
still_valid t = refl

same_local : get_local_node (decode running.config pair) ≡ (node_a, none)
unfolding get_local_node cluster_check lookup merge insert
same_local = refl

two_nodes : (node_count (decode running.config pair) == 1) ≡ false
unfolding merge insert node_count
two_nodes = refl

on_signal-IsComeUp_example :
    (on_signal calm no_hooks Signal.user2 running ≡ (returned tt, reloaded calm running pair))
    × IsComeUp calm
        (reloaded calm running pair)
        node_a
        (setup_members calm (on_signal calm no_hooks Signal.user2 running).1)
on_signal-IsComeUp_example =
    on_signal-IsComeUp calm calm-CanDial running running-IsLinked joined pair refl still_valid
      node_a same_local (distinct_texts "a" "" refl) two_nodes
