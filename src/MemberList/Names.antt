-- ===== src/MemberList/Names.antt =====
-- The members keep distinct hostnames, and adding, loading and removing do what they say by hostname.
pub mod Idle
use mathlib.Core.Path.{fun_ext}
use pulseha.Base.{
  ℕ, suc, ◌<◌, String, List, [], ◌∷◌, ◌++◌, false, not, none, some, str_eq, eq_iff, ◌≡◌, ◌≢◌, refl,
  sym, ap, ◌∙◌, arith, if◌then◌else◌, select, Bool-cases, Option-cases, inl, inr, All, All-append,
  All-mono, In,
}
use pulseha.Base.Int.{pos}
use pulseha.Exec.{returned, for_each}
use pulseha.Exec.Keeps.{bind-returned}
use pulseha.Config.{Node}
use pulseha.World.{World, Member, zero_member, Client, Status, update, with_lock}
use pulseha.Member.{
  set_status, set_hostname, set_client, set_score, inform_all, plugins_of, is_general,
}
use pulseha.MemberList.Removal.{remove_loop-select, AtMostOne, Miss}
use pulseha.MemberList.{
  find_member, find_in, add_member, member_exists, member_remove_by_hostname, load_members,
}

module _ (heap : ℕ → Member) where
  -- No two members of the list bear one hostname.
  abbrev pub DistinctNames : List ℕ → Type 0
  DistinctNames [] = Unit
  DistinctNames (p ∷ ps) = (find_member heap (heap p).hostname ps ≡ none) × DistinctNames ps

abbrev pub HasClient : (ℕ → Member) → ℕ → Type 0
HasClient heap p = (c : Client) × ((heap p).client ≡ some c)

-- What holds of the member list between two operations: hostnames are distinct, every address is that
-- of an allocated object with a client, and the mutex is free.
pub record IsListed (w : World) : Type 0 where
  pub unlocked : w.locked ≡ false
  pub distinct : DistinctNames w.heap w.members
  pub allocated : All (λ p. p < w.next) w.members
  pub clients : All (HasClient w.heap) w.members

-- Two heaps that agree on the members.
abbrev Agree : (ℕ → Member) → (ℕ → Member) → List ℕ → Type 0
Agree h k = All (λ p. h p ≡ k p)

find-Agree :
    (h k : ℕ → Member) (name : String) (ps : List ℕ)
    → Agree h k ps
    → find_member h name ps ≡ find_member k name ps
find-Agree h k name [] a = refl
find-Agree h k name (p ∷ ps) a =
    ground (arith, find-Agree h k name ps a.1, ap (λ m. m.hostname) a.0)

DistinctNames-Agree :
    (h k : ℕ → Member) (ps : List ℕ) → Agree h k ps → DistinctNames k ps → DistinctNames h ps
DistinctNames-Agree h k [] a d = tt
DistinctNames-Agree h k (p ∷ ps) a d =
    (rw (a.0) (find-Agree h k (k p).hostname ps a.1 ∙ d.0), DistinctNames-Agree h k ps a.1 d.1)

HasClient-Agree :
    (h k : ℕ → Member) (ps : List ℕ) → Agree h k ps → All (HasClient k) ps → All (HasClient h) ps
HasClient-Agree h k [] a c = tt
HasClient-Agree h k (p ∷ ps) a c =
    ((c.0.0, ap (λ m. m.client) a.0 ∙ c.0.1), HasClient-Agree h k ps a.1 c.1)

find-append :
    (h : ℕ → Member) (name : String) (ps : List ℕ) (q : ℕ)
    → find_member h name ps ≡ none
    → find_member h name (ps ++ q ∷ []) ≡ (if str_eq (h q).hostname name then some q else none)
find-append h name [] q e = ground arith
find-append h name (p ∷ ps) q e = ground (arith, find-append h name ps q)

find-append_ne :
    (h : ℕ → Member) (name : String) (ps : List ℕ) (q : ℕ)
    → (h q).hostname ≢ name
    → find_member h name (ps ++ q ∷ []) ≡ find_member h name ps
find-append_ne h name [] q apart = ground (arith, eq_iff (h q).hostname name)
find-append_ne h name (p ∷ ps) q apart = ground (arith, find-append_ne h name ps q apart)

-- A member at the end with a hostname that none has.
DistinctNames-append :
    (h : ℕ → Member) (ps : List ℕ) (q : ℕ)
    → DistinctNames h ps
    → find_member h (h q).hostname ps ≡ none
    → DistinctNames h (ps ++ q ∷ [])
DistinctNames-append h [] q d e = (refl, tt)
DistinctNames-append h (p ∷ ps) q d e = (apart, DistinctNames-append h ps q d.1 (ground arith))
  where
    apart : find_member h (h p).hostname (ps ++ q ∷ []) ≡ none
    apart =
        find-append h (h p).hostname ps q d.0
        ∙ ground (arith, eq_iff (h q).hostname (h p).hostname, eq_iff (h p).hostname (h q).hostname)

Miss-find :
    (h : ℕ → Member) (name : String) (ps : List ℕ)
    → find_member h name ps ≡ none
    → Miss (λ p. str_eq (h p).hostname name) ps
Miss-find h name [] e = tt
Miss-find h name (p ∷ ps) e = (ground arith, Miss-find h name ps (ground arith))

AtMostOne-DistinctNames :
    (h : ℕ → Member) (name : String) (ps : List ℕ)
    → DistinctNames h ps
    → AtMostOne (λ p. str_eq (h p).hostname name) ps
AtMostOne-DistinctNames h name [] d = tt
AtMostOne-DistinctNames h name (p ∷ ps) d = (
  λ hit. Miss-find h name ps (ap (λ n. find_member h n ps) (sym ((eq_iff _ _).0 hit)) ∙ d.0),
  AtMostOne-DistinctNames h name ps d.1,
)

-- On a well-formed list MemberRemoveByHostname returns and leaves just the members with another
-- hostname, in their order; nothing else changes.
pub member_remove_by_hostname_lem :
    (name : String) (w : World)
    → IsListed w
    → member_remove_by_hostname name w ≡ (
      returned tt,
      record w {
        members = select (λ p. not (str_eq (w.heap p).hostname name)) w.members;
        locked = false;
      },
    )
unfolding member_remove_by_hostname with_lock
member_remove_by_hostname_lem name w v = rw (v.unlocked) (
    rw
      (remove_loop-select (λ p. str_eq (w.heap p).hostname name) w.members
        (AtMostOne-DistinctNames w.heap name w.members v.distinct))
      refl)

-- What AddMember promises: the hostname is in the list afterwards, and lookups of others are as before.
pub record IsAdded (h : String) (w w' : World) : Type 0 where
  pub listed : IsListed w'
  pub found : (p : ℕ) × (find_in h w' ≡ some p)
  pub others : (n : String) → h ≢ n → find_in n w' ≡ find_in n w
  pub config_kept : w'.config ≡ w.config

Agree-update :
    (h : ℕ → Member) (n : ℕ) (f : Member → Member) (ps : List ℕ)
    → All (λ p. p < n) ps
    → Agree (update h n f) h ps
Agree-update h n f [] b = tt
Agree-update h n f (p ∷ ps) b = (ground (arith, b.0), Agree-update h n f ps b.1)

Agree-trans : (h k l : ℕ → Member) (ps : List ℕ) → Agree h k ps → Agree k l ps → Agree h l ps
Agree-trans h k l [] a b = tt
Agree-trans h k l (p ∷ ps) a b = (a.0 ∙ b.0, Agree-trans h k l ps a.1 b.1)

add_known :
    (h : String) (c : Client) (w : World) (p : ℕ)
    → IsListed w
    → find_in h w ≡ some p
    → add_member h c w ≡ (returned tt, w)
unfolding add_member member_exists with_lock
add_known h c w p v e = rw (v.unlocked, e) refl

-- The object that AddMember makes.
abbrev filled : String → Client → Member → Member
filled h c m = record zero_member {
  hostname = h;
  status = Status.unavailable;
  client = some c;
  score = pos 0;
}

abbrev added : String → Client → World → World
added h c w = record w {
  members = w.members ++ w.next ∷ [];
  locked = false;
  heap = update w.heap w.next (filled h c);
  next = suc w.next;
  trace = inform_all (plugins_of is_general w.modules) w.trace;
}

update-update :
    (h : ℕ → Member) (p : ℕ) (f g : Member → Member)
    → update (update h p f) p g ≡ update h p (λ m. g (f m))
update-update h p f g = fun_ext λ q. ground arith

add_unknown :
    (h : String) (c : Client) (w : World)
    → IsListed w
    → find_in h w ≡ none
    → add_member h c w ≡ (returned tt, added h c w)
unfolding add_member member_exists with_lock set_status set_hostname set_client set_score
add_unknown h c w v e = rw (v.unlocked, e) (simp update-update)

IsAdded-added :
    (h : String) (c : Client) (w : World)
    → IsListed w
    → find_in h w ≡ none
    → IsAdded h w (added h c w)
IsAdded-added h c w v e = record {
  listed = record {
    unlocked = refl;
    distinct =
        DistinctNames-append heap' w.members w.next
          (DistinctNames-Agree heap' w.heap w.members same v.distinct)
          (ap (λ n. find_member heap' n w.members) name ∙ absent);
    allocated =
        All-append (λ p. p < suc w.next) w.members (w.next ∷ [])
          (All-mono (λ p. p < w.next) (λ p. p < suc w.next) w.members (λ p b. omega arith)
            v.allocated)
          (omega arith, tt);
    clients =
        All-append (HasClient heap') w.members (w.next ∷ [])
          (HasClient-Agree heap' w.heap w.members same v.clients) ((c, ground arith), tt);
  };
  found = (w.next, find-append heap' h w.members w.next absent ∙ ground (arith, eq_iff h h));
  others = λ n apart.
      find-append_ne heap' n w.members w.next (λ e'. apart (sym name ∙ e'))
      ∙ find-Agree heap' w.heap n w.members same;
  config_kept = refl;
}
  where
    heap' : ℕ → Member
    heap' = update w.heap w.next (filled h c)

    same : Agree heap' w.heap w.members
    same = Agree-update w.heap w.next (filled h c) w.members v.allocated

    name : (heap' w.next).hostname ≡ h
    name = ground arith

    absent : find_member heap' h w.members ≡ none
    absent = find-Agree heap' w.heap h w.members same ∙ e

-- On a well-formed list AddMember returns, keeps it well formed, and afterwards the hostname is in it,
-- with every other lookup unchanged.
pub add_member-IsAdded :
    (h : String) (c : Client) (w : World)
    → IsListed w
    → ((add_member h c w).0 ≡ returned tt) × IsAdded h w (add_member h c w).1
add_member-IsAdded h c w v = elim (Option-cases (find_in h w)) [
  | inl absent ↦ rw (add_unknown h c w v absent) (refl, IsAdded-added h c w v absent)
  | inr (p, present) ↦ rw (add_known h c w p v present) (
    refl,
    record { listed = v; found = (p, present); others = λ n apart. refl; config_kept = refl },
  )
]

-- What loading promises for the nodes of a list.
pub record IsLoaded (es : List (String × Node)) (w w' : World) : Type 0 where
  pub listed : IsListed w'
  pub all_found : (e : String × Node) → In e es → find_in e.1.hostname w' ≢ none
  pub kept : (n : String) → find_in n w ≢ none → find_in n w' ≢ none
  pub config_kept : w'.config ≡ w.config

IsAdded-kept :
    {h : String} {w w' : World} (n : String)
    → IsAdded h w w'
    → find_in n w ≢ none
    → find_in n w' ≢ none
IsAdded-kept {h} {w} {w'} n a before = elim (Bool-cases (str_eq h n)) [
  | inl same ↦ λ gone. cc (gone, a.found.1, (eq_iff h n).0 same)
  | inr other ↦ λ gone. before (sym (a.others n (λ e. ground (arith, eq_iff h n))) ∙ gone)
]

abbrev new_client : Client
new_client = record { connection = false; requester = false }

load_loop :
    (es : List (String × Node)) (w : World)
    → IsListed w
    → let r = for_each es (λ (e : String × Node). add_member e.1.hostname new_client) w in
      (r.0 ≡ returned tt) × IsLoaded es w r.1
unfolding for_each
load_loop [] w v = (
  refl,
  record { listed = v; all_found = λ e m. elim m [ ]; kept = λ n b. b; config_kept = refl },
)
load_loop (e ∷ es) w v =
    let (ok, a) = add_member-IsAdded e.1.hostname new_client w v in
    let (ok', l) = load_loop es (add_member e.1.hostname new_client w).1 a.listed in
    rw
      (bind-returned (add_member e.1.hostname new_client)
        (λ _. for_each es (λ (e : String × Node). add_member e.1.hostname new_client)) w tt ok)
      (
        ok',
        record {
          listed = l.listed;
          all_found = λ d. elim [
            | inl here ↦ rw here (l.kept e.1.hostname (λ gone. cc (gone, a.found.1)))
            | inr there ↦ l.all_found d there
          ];
          kept = λ n before. l.kept n (IsAdded-kept n a before);
          config_kept = l.config_kept ∙ a.config_kept;
        },
      )

-- From a well-formed list LoadMembers returns with a well-formed one in which every node of the
-- configuration has a member, and every member that was there still is.
pub load_members-IsLoaded :
    (w : World)
    → IsListed w
    → ((load_members w).0 ≡ returned tt) × IsLoaded w.config.nodes.entries w (load_members w).1
unfolding load_members
load_members-IsLoaded w v = load_loop w.config.nodes.entries w v
