-- ===== src/MemberList.antt =====
-- src/pulseha/member_list.go: the members of the cluster as this daemon sees them.
pub mod Removal
pub mod Names
pub mod Refinement
pub mod Local
use pulseha.Base.{
  ℕ, zero, suc, ◌-◌, String, List, [], ◌∷◌, ◌++◌, Bool, true, false, Option, none, some, str_eq,
  leb, if◌then◌else◌, first, get_elem?, take, drop, length, concat,
}
use pulseha.Base.Int.{ℤ, pos}
use pulseha.Exec.{Exec, Outcome, pure, panic, gets, modify, skip, for_each, deref, ◌>>=◌, ◌>>◌}
use pulseha.Config.{Node, Error, get_local_node}
use pulseha.World.{
  World, Env, Daemon, Member, Client, Status, LogLevel, MemberlistMember, zero_member, store,
  update, with_lock,
}
use pulseha.Member.{
  set_hostname, set_status, set_client, set_score, set_latency, set_last_hc_response, log,
}

abbrev pub match_member : (ℕ → Member) → String → ℕ → Option ℕ
match_member heap h p = if str_eq (heap p).hostname h then some p else none

-- The loop over the members that returns at the first with the hostname.
abbrev pub find_member : (ℕ → Member) → String → List ℕ → Option ℕ
find_member heap h = first (match_member heap h)

abbrev pub find_in : String → World → Option ℕ
find_in h w = find_member w.heap h w.members

abbrev pub is_active : Status → Bool
is_active Status.active = true
is_active _ = false

abbrev pub is_passive : Status → Bool
is_passive Status.passive = true
is_passive _ = false

abbrev pub match_active : (ℕ → Member) → ℕ → Option ℕ
match_active heap p = if is_active (heap p).status then some p else none

abbrev named : (ℕ → Member) → Option ℕ → String × Option ℕ
named heap (some p) = ((heap p).hostname, some p)
named heap none = ("", none)

-- GetActiveMember, which takes no lock
unfoldable pub get_active_member : World → String × Option ℕ
get_active_member w = named w.heap (first (match_active w.heap) w.members)

-- MemberExists
unfoldable pub member_exists : String → Daemon Bool
member_exists h = with_lock (gets (λ w. elim (find_in h w) [ some p ↦ true | none ↦ false ]))

-- &Member{}: a new object at the next address.
unfoldable pub new_member : Daemon ℕ
new_member w =
    let p = w.next in
    (Outcome.returned p, record w { heap = update w.heap p (λ _. zero_member); next = suc p })

-- m.Members = append(m.Members, p)
append_member : ℕ → Daemon Unit
append_member p = modify (λ w. record w { members = w.members ++ p ∷ [] })

add_new : String → Client → Daemon Unit
unfolding new_member append_member set_hostname set_client set_score
add_new h c = do
  p ← new_member
  set_hostname p h
  set_status p Status.unavailable
  set_client p c
  set_score p (pos 0)
  append_member p

-- AddMember
unfoldable pub add_member : String → Client → Daemon Unit
unfolding add_new
add_member h c = do known ← member_exists h; if known then skip else with_lock (add_new h c)

-- append(s[:i], s[i+1:]...) for a slice of length `n` over the array `b`, in place: what stood behind
-- the new end stays in the array.
abbrev pub shift : List ℕ → ℕ → ℕ → List ℕ
shift b i n = take i b ++ (drop (suc i) (take n b) ++ drop (n - 1) b)

-- The loop of MemberRemoveByHostname, with `left` rounds to go at index `i`. `range` walks the array
-- that the slice had at the start, while the body shortens the slice: `none` is the panic when
-- s[i+1:] begins behind the end.
unfoldable pub remove_loop : (ℕ → Bool) → ℕ → ℕ → List ℕ → ℕ → Option (List ℕ)
remove_loop hit zero i b n = some (take n b)
remove_loop hit (suc left) i b n =
    let shortened = remove_loop hit left (suc i) (shift b i n) (n - 1) in
    let same = remove_loop hit left (suc i) b n in
    elim (get_elem? b i) [
      | some p ↦ if hit p then (if leb (suc i) n then shortened else none) else same
      | none ↦ none
    ]

abbrev replace_members : Option (List ℕ) → Daemon Unit
replace_members none = panic
replace_members (some ps) = modify (λ w. record w { members = ps })

-- MemberRemoveByHostname
unfoldable pub member_remove_by_hostname : String → Daemon Unit
unfolding remove_loop
member_remove_by_hostname h = with_lock (λ w.
    replace_members
      (remove_loop (λ p. str_eq (w.heap p).hostname h) (length w.members) 0 w.members
        (length w.members))
      w)

-- MemberGetStatus
unfoldable pub member_get_status : String → Daemon (Status × Error)
member_get_status h = with_lock (
    gets (λ w. elim (find_in h w) [
      | some p ↦ ((w.heap p).status, none)
      | none ↦ (Status.unavailable, some (concat ("unable to find member with hostname " ∷ h ∷ [])))
    ]))

-- LoadMembers
unfoldable pub load_members : Daemon Unit
unfolding add_member
load_members w =
    for_each w.config.nodes.entries
      (λ e. add_member e.1.hostname (record { connection = false; requester = false })) w

-- Reset
unfoldable pub reset : Daemon Unit
reset = with_lock (modify (λ w. record w { members = [] }))

module _ (env : Env) where
  -- GetMemberByHostname: the warning is sent while the list is locked.
  unfoldable pub get_member_by_hostname : String → Daemon (Option ℕ)
  unfolding log
  get_member_by_hostname h = with_lock (do
    if str_eq h ""
        then log env LogLevel.warning
            "MemberList:GetMemberByHostname() Unable to get member by hostname as hostname is empty!"
        else skip
    gets (find_in h))

  or_new : Option ℕ → Daemon (ℕ × Error)
  or_new (some p) = pure (p, none)
  or_new none = do
    p ← new_member
    pure (p, some "cannot get local member. Perhaps we are no longer in a cluster")

  find_local : Node × Error → Daemon (ℕ × Error)
  unfolding or_new
  find_local (n, some e) = do p ← new_member; pure (p, some e)
  find_local (n, none) = do found ← gets (find_in n.hostname); or_new found

  -- GetLocalMember: with an error comes a new, empty member.
  unfoldable pub get_local_member : Daemon (ℕ × Error)
  unfolding find_local
  get_local_member = with_lock (do n ← gets (λ w. get_local_node w.config); find_local n)

  -- The body of Update for a message about a member of the list.
  update_member : Node → MemberlistMember → ℕ → Daemon Unit
  unfolding set_latency set_score set_last_hc_response
  update_member node m p = do
    set_status p m.status
    set_latency p m.latency
    host ← gets (λ w. (w.heap p).hostname)
    if str_eq host node.hostname then skip else set_score p m.score
    if str_eq m.hostname node.hostname
        then skip
        else set_last_hc_response p (env.parse_time m.last_received)

  update_one : Node → MemberlistMember → Daemon Unit
  unfolding update_member
  update_one node m = do
    found ← gets (find_in m.hostname)
    elim found [ some p ↦ update_member node m p | none ↦ skip ]

  update_all : List MemberlistMember → Node × Error → Daemon Unit
  unfolding update_one log
  update_all ms (n, some e) =
      log env LogLevel.error "MemberList:update() Failed to find local node. Update failed."
  update_all ms (n, none) = for_each ms (update_one n)

  -- Update
  unfoldable pub update_members : List MemberlistMember → Daemon Unit
  unfolding update_all
  update_members ms = with_lock (do n ← gets (λ w. get_local_node w.config); update_all ms n)
