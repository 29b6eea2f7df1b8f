-- ===== src/Tests/Roster.antt =====
-- Tests of the member list.
use pulseha.Base.{List, [], ◌∷◌, true, false, not, ◌≡◌, refl, arith, select, str_eq}
use pulseha.Exec.{returned}
use pulseha.World.{World, Client, Status}
use pulseha.MemberList.{add_member, load_members, member_remove_by_hostname}
use pulseha.MemberList.Names.{
  IsListed, IsAdded, IsLoaded, member_remove_by_hostname_lem, add_member-IsAdded,
  load_members-IsLoaded,
}
use pulseha.MemberList.Refinement.{
  Change, Refines, perform, specified_all, names_of, perform_all-Refines,
}
use pulseha.Exec.{for_each}
use pulseha.Tests.{pair, daemon}

abbrev roster : World
roster = daemon Status.active Status.passive

abbrev client : Client
client = record { connection = false; requester = false }

roster-IsListed : IsListed roster
roster-IsListed = record {
  unlocked = refl;
  distinct = (refl, (refl, tt));
  allocated = (omega arith, (omega arith, tt));
  clients = ((client, refl), ((client, refl), tt));
}

add_member_example :
    ((add_member "c" client roster).0 ≡ returned tt)
    × IsAdded "c" roster (add_member "c" client roster).1
add_member_example = add_member-IsAdded "c" client roster roster-IsListed

load_members_example :
    ((load_members roster).0 ≡ returned tt)
    × IsLoaded pair.nodes.entries roster (load_members roster).1
load_members_example = load_members-IsLoaded roster roster-IsListed

member_remove_example : member_remove_by_hostname "b" roster ≡ (
  returned tt,
  record roster {
    members = select (λ p. not (str_eq (roster.heap p).hostname "b")) roster.members;
    locked = false;
  },
)
member_remove_example = member_remove_by_hostname_lem "b" roster roster-IsListed

-- "c" joins twice, "b" leaves twice.
abbrev history : List Change
history = Change.add "c" client ∷ Change.add "c" client ∷ Change.remove "b" ∷ Change.remove "b" ∷ []

perform_all_example :
    Refines (specified_all history (names_of roster)) (for_each history perform roster)
perform_all_example = perform_all-Refines history roster roster-IsListed

c_remains : specified_all history (names_of roster) "c" ≡ true
unfolding specified_all
c_remains = refl

b_is_gone : specified_all history (names_of roster) "b" ≡ false
unfolding specified_all
b_is_gone = refl
