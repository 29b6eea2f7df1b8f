-- ===== src/MemberList/Names/Idle.antt =====
-- What loading says of the members' statuses: one that is added is unavailable.
use pulseha.Base.{
  ℕ, String, List, [], ◌∷◌, ◌≡◌, ◌<◌, arith, inl, inr, Option-cases, All, All-append,
}
use pulseha.Exec.{for_each}
use pulseha.Exec.Keeps.{bind-returned}
use pulseha.Config.{Node}
use pulseha.World.{World, Member, Client, Status, update}
use pulseha.MemberList.{find_in, add_member, load_members}
use pulseha.MemberList.Names.{
  IsListed, filled, add_known, add_unknown, add_member-IsAdded, new_client,
}

-- Every member of the list is unavailable.
abbrev pub AllDown : World → Type 0
AllDown w = All (λ p. (w.heap p).status ≡ Status.unavailable) w.members

AllDown-update :
    (h : ℕ → Member) (n : ℕ) (f : Member → Member) (ps : List ℕ)
    → All (λ p. p < n) ps
    → All (λ p. (h p).status ≡ Status.unavailable) ps
    → All (λ p. (update h n f p).status ≡ Status.unavailable) ps
AllDown-update h n f [] below down = tt
AllDown-update h n f (p ∷ ps) below down = (ground arith, AllDown-update h n f ps below.1 down.1)

add_member-AllDown :
    (h : String) (c : Client) (w : World) → IsListed w → AllDown w → AllDown (add_member h c w).1
add_member-AllDown h c w v down = elim (Option-cases (find_in h w)) [
  | inl absent ↦ rw (add_unknown h c w v absent) (
      All-append (λ p. (update w.heap w.next (filled h c) p).status ≡ Status.unavailable) w.members
        (w.next ∷ []) (AllDown-update w.heap w.next (filled h c) w.members v.allocated down)
        (ground arith, tt))
  | inr (p, present) ↦ rw (add_known h c w p v present) down
]

load_loop-AllDown :
    (es : List (String × Node)) (w : World)
    → IsListed w
    → AllDown w
    → AllDown (for_each es (λ (e : String × Node). add_member e.1.hostname new_client) w).1
unfolding for_each
load_loop-AllDown [] w v down = down
load_loop-AllDown (e ∷ es) w v down =
    let (ok, a) = add_member-IsAdded e.1.hostname new_client w v in
    rw
      (bind-returned (add_member e.1.hostname new_client)
        (λ _. for_each es (λ (e : String × Node). add_member e.1.hostname new_client)) w tt ok)
      (load_loop-AllDown es _ a.listed (add_member-AllDown e.1.hostname new_client w v down))

-- From a well-formed list with nobody available LoadMembers leaves one with nobody available.
pub load_members-AllDown : (w : World) → IsListed w → AllDown w → AllDown (load_members w).1
unfolding load_members
load_members-AllDown w = load_loop-AllDown w.config.nodes.entries w
