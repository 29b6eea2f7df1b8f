-- ===== src/MemberList/Refinement.antt =====
-- The member list as a set of hostnames: the order of the members, their objects and the mutex are hidden.
use mathlib.Core.Path.{fun_ext}
use pulseha.Base.{
  ◌<◌, String, List, [], ◌∷◌, Bool, false, not, ◌&&◌, ◌||◌, none, str_eq, eq_iff, ◌≡◌, refl, sym,
  ap, ◌∙◌, arith, is_some, select, Bool-cases, inl, inr, ℕ, All,
}
use pulseha.Exec.{Outcome, returned, for_each}
use pulseha.Exec.Keeps.{bind-returned}
use pulseha.World.{World, Daemon, Member, Client, with_lock}
use pulseha.MemberList.{find_in, find_member, add_member, member_remove_by_hostname, reset}
use pulseha.MemberList.Names.{
  IsListed, IsAdded, DistinctNames, HasClient, add_member-IsAdded, member_remove_by_hostname_lem,
}

-- A change of the list.
pub data Change : Type 0 where
  add : String → Client → Change
  remove : String → Change
  clear : Change

unfoldable pub perform : Change → Daemon Unit
perform (Change.add h c) = add_member h c
perform (Change.remove h) = member_remove_by_hostname h
perform Change.clear = reset

-- The same on a set of hostnames.
unfoldable pub specified : Change → (String → Bool) → String → Bool
specified (Change.add h c) names n = str_eq h n || names n
specified (Change.remove h) names n = not (str_eq h n) && names n
specified Change.clear names n = false

unfoldable pub specified_all : List Change → (String → Bool) → String → Bool
unfolding specified
specified_all [] names = names
specified_all (c ∷ cs) names = specified_all cs (specified c names)

-- The set that a state stands for.
abbrev pub names_of : World → String → Bool
names_of w n = is_some (find_in n w)

abbrev keeps_others : (ℕ → Member) → String → ℕ → Bool
keeps_others heap h p = not (str_eq (heap p).hostname h)

find-select :
    (heap : ℕ → Member) (h n : String) (ps : List ℕ)
    → is_some (find_member heap n (select (keeps_others heap h) ps))
      ≡ not (str_eq h n) && is_some (find_member heap n ps)
find-select heap h n [] = elim (Bool-cases (str_eq h n)) [
  | inl same ↦ rw same refl
  | inr other ↦ rw other refl
]
find-select heap h n (p ∷ ps) = elim (Bool-cases (str_eq (heap p).hostname h)) [
  | inl gone ↦ ground (
    arith,
    find-select heap h n ps,
    gone,
    eq_iff (heap p).hostname h,
    eq_iff (heap p).hostname n,
    eq_iff h n,
  )
  | inr stays ↦ ground (
    arith,
    find-select heap h n ps,
    stays,
    eq_iff (heap p).hostname h,
    eq_iff (heap p).hostname n,
    eq_iff h n,
  )
]

select-All : (Good : ℕ → Type 0) (f : ℕ → Bool) (ps : List ℕ) → All Good ps → All Good (select f ps)
select-All Good f [] a = tt
select-All Good f (p ∷ ps) a = elim (Bool-cases (f p)) [
  | inl kept ↦ rw kept (a.0, select-All Good f ps a.1)
  | inr left ↦ rw left (select-All Good f ps a.1)
]

absent_after :
    (heap : ℕ → Member) (n : String) (f : ℕ → Bool) (ps : List ℕ)
    → find_member heap n ps ≡ none
    → find_member heap n (select f ps) ≡ none
absent_after heap n f [] e = refl
absent_after heap n f (p ∷ ps) e = elim (Bool-cases (f p)) [
  | inl kept ↦ rw kept (ground (arith, absent_after heap n f ps))
  | inr left ↦ rw left (absent_after heap n f ps (ground arith))
]

select-DistinctNames :
    (heap : ℕ → Member) (f : ℕ → Bool) (ps : List ℕ)
    → DistinctNames heap ps
    → DistinctNames heap (select f ps)
select-DistinctNames heap f [] d = tt
select-DistinctNames heap f (p ∷ ps) d = elim (Bool-cases (f p)) [
  | inl kept ↦
      rw kept (absent_after heap (heap p).hostname f ps d.0, select-DistinctNames heap f ps d.1)
  | inr left ↦ rw left (select-DistinctNames heap f ps d.1)
]

-- What a run must leave: it returned, the list is well formed, and the hostnames are as specified.
pub record Refines (names : String → Bool) (r : Outcome (Unit {0}) × World) : Type 0 where
  pub returns : r.0 ≡ returned tt
  pub listed : IsListed r.1
  pub same_names : (n : String) → names_of r.1 n ≡ names n

IsAdded-names :
    (h n : String) (w w' : World) → IsAdded h w w' → names_of w' n ≡ str_eq h n || names_of w n
IsAdded-names h n w w' a = elim (Bool-cases (str_eq h n)) [
  | inl same ↦ rw same (ap is_some (ap (λ m. find_in m w') (sym ((eq_iff h n).0 same)) ∙ a.found.1))
  | inr other ↦ rw other (ap is_some (a.others n (λ e. ground (arith, eq_iff h n))))
]

perform-Refines :
    (c : Change) (w : World) → IsListed w → Refines (specified c (names_of w)) (perform c w)
unfolding perform specified reset with_lock
perform-Refines (Change.add h c) w v =
    let (ok, a) = add_member-IsAdded h c w v in
    record { returns = ok; listed = a.listed; same_names = λ n. IsAdded-names h n w _ a }
perform-Refines (Change.remove h) w v = rw (member_remove_by_hostname_lem h w v) (record {
  returns = refl;
  listed = record {
    unlocked = refl;
    distinct = select-DistinctNames w.heap (keeps_others w.heap h) w.members v.distinct;
    allocated = select-All (λ p. p < w.next) (keeps_others w.heap h) w.members v.allocated;
    clients = select-All (HasClient w.heap) (keeps_others w.heap h) w.members v.clients;
  };
  same_names = λ n. find-select w.heap h n w.members;
})
perform-Refines Change.clear w v = rw (v.unlocked) (record {
  returns = refl;
  listed = record { unlocked = refl; distinct = tt; allocated = tt; clients = tt };
  same_names = λ n. refl;
})

-- From a well-formed list every sequence of additions, removals and resets returns, whatever it adds or
-- removes twice, leaves a well-formed list, and does to the hostnames in it what the same sequence does
-- to a set of hostnames.
pub perform_all-Refines :
    (cs : List Change) (w : World)
    → IsListed w
    → Refines (specified_all cs (names_of w)) (for_each cs perform w)
unfolding specified_all for_each
perform_all-Refines [] w v = record { returns = refl; listed = v; same_names = λ n. refl }
perform_all-Refines (c ∷ cs) w v =
    let one = perform-Refines c w v in
    rw
      (
        bind-returned (perform c) (λ _. for_each cs perform) w tt one.returns,
        sym (fun_ext one.same_names),
      )
      (perform_all-Refines cs (perform c w).1 one.listed)
