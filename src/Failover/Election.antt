-- ===== src/Failover/Election.antt =====
-- Who is next to become active.
use pulseha.Base.{
  ℕ, String, List, [], ◌∷◌, true, false, Option, none, some, str_eq, eq_iff, ◌≡◌, ◌≢◌, inl, inr,
  refl, sym, ap, ◌∙◌, arith, Bool-cases, In,
}
use pulseha.Exec.{Outcome, returned, blocked}
use pulseha.Config.{Node}
use pulseha.World.{World, Env, with_lock}
use pulseha.Member.{log, broadcast}
use pulseha.MemberList.{find_in, is_passive, get_member_by_hostname}
use pulseha.Failover.{next_loop, get_next_active_member}

-- Every node of a list has a hostname and a member.
abbrev pub IsCovered : List (String × Node) → World → Type 0
IsCovered es w =
    (e : String × Node)
    → In e es
    → (e.1.hostname ≢ "") × ((p : ℕ) × (find_in e.1.hostname w ≡ some p))

-- A lookup of a hostname leaves the state as it was and gives the first member with it.
pub get_member_by_hostname_lem :
    (env : Env) (h : String) (w : World)
    → h ≢ ""
    → w.locked ≡ false
    → get_member_by_hostname env h w ≡ (returned (find_in h w), w)
unfolding get_member_by_hostname with_lock
get_member_by_hostname_lem env h w named free = rw (free, no_name) refl
  where
    no_name : str_eq h "" ≡ false
    no_name = ground (arith, eq_iff h "")

-- With the list free, looking up the empty hostname never returns: the warning about it is sent under
-- the mutex that sending takes too.
pub get_member_by_hostname_blocks :
    (env : Env) (w : World) → w.locked ≡ false → (get_member_by_hostname env "" w).0 ≡ blocked
unfolding get_member_by_hostname with_lock log broadcast
get_member_by_hostname_blocks env w free = rw free refl

-- The member that an election picks: passive and of a node, or none because no node's member is passive.
abbrev pub Elected : List (String × Node) → World → Option ℕ → Type 0
Elected es w (some p) =
    (e : String × Node) × In e es
    × (find_in e.1.hostname w ≡ some p)
    × (is_passive (w.heap p).status ≡ true)
Elected es w none =
    (e : String × Node) (p : ℕ)
    → In e es
    → find_in e.1.hostname w ≡ some p
    → is_passive (w.heap p).status ≡ false

abbrev pub IsElection : List (String × Node) → World → Outcome (Option ℕ) × World → Type 0
IsElection es w r = (o : Option ℕ) × (r ≡ (returned o, w)) × Elected es w o

next_loop-IsElection :
    (env : Env) (es : List (String × Node)) (w : World)
    → w.locked ≡ false
    → IsCovered es w
    → IsElection es w (next_loop env es w)
unfolding next_loop
next_loop-IsElection env [] w free c = (none, refl, λ e p m. elim m [ ])
next_loop-IsElection env (e ∷ es) w free c =
    let (named, member) = c e (inl refl) in
    let (p, found) = member in
    rw (get_member_by_hostname_lem env e.1.hostname w named free, found)
      (elim (Bool-cases (is_passive (w.heap p).status)) [
        | inl passive ↦ rw (passive) (some p, refl, (e, inl refl, found, passive))
        | inr other ↦
            rw (other)
              (later e p found other (next_loop-IsElection env es w free (λ d m. c d (inr m))))
      ])
  where
    later :
        (e : String × Node) (p : ℕ)
        → find_in e.1.hostname w ≡ some p
        → is_passive (w.heap p).status ≡ false
        → IsElection es w (next_loop env es w)
        → IsElection (e ∷ es) w (next_loop env es w)
    later e p found other (some q, r, (d, m, f, q_passive)) = (some q, r, (d, inr m, f, q_passive))
    later e p found other (none, r, all) = (
      none,
      r,
      λ d q. elim [
        | inl here ↦ λ f.
            let same : some q ≡ some p =
              sym f ∙ ap (λ (x : String × Node). find_in x.1.hostname w) here ∙ found in
            ground (arith, same, other)
        | inr there ↦ all d q there
      ],
    )

-- Where every node has a hostname and a member and the list is free, GetNextActiveMember neither panics
-- nor blocks and leaves the state alone: it gives a passive member of some node, in whatever order the
-- nodes come, and its error only when no node's member is passive.
pub get_next_active_member-IsElection :
    (env : Env) (w : World)
    → w.locked ≡ false
    → IsCovered w.config.nodes.entries w
    → IsElection w.config.nodes.entries w (get_next_active_member env w)
unfolding get_next_active_member
get_next_active_member-IsElection env w free c =
    next_loop-IsElection env w.config.nodes.entries w free c
