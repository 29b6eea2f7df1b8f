-- ===== src/Score.antt =====
-- GetHighestScoreMember and AddHealthCheckHandler of src/pulseha/member_list.go.
pub mod Winner
use pulseha.Base.{
  ℕ, String, List, [], ◌∷◌, Bool, true, false, not, ◌&&◌, ◌||◌, Option, none, some, str_eq, ◌==◌,
  if◌then◌else◌,
}
use pulseha.Base.Int.{ℤ, pos, negsuc, ltb_ℤ, eq_ℤ, to_int32}
use pulseha.Exec.{Exec, pure, panic, gets, modify, skip, deref, for_each, ◌>>=◌, ◌>>◌}
use pulseha.Config.{Node, Error, cluster_check, node_count}
use pulseha.World.{World, Env, Daemon, Member, MemberlistMember, Routine, spawned, log_event}
use pulseha.MemberList.{is_passive, get_active_member, get_member_by_hostname, get_local_member}
use pulseha.Failover.{promote_member}

-- How the first loop of GetHighestScoreMember ends: it returns a member, which may be nil, or goes on
-- with a score.
pub data FirstPass : Type 0 where
  decided : Option ℕ → FirstPass
  undecided : ℤ → FirstPass

-- MemberlistMember of a member, for a health check.
abbrev pub describe : (ℕ → String) → Member → MemberlistMember
describe format m = record {
  hostname = m.hostname;
  status = m.status;
  latency = m.latency;
  last_received = format m.last_hc_response;
  score = to_int32 m.score;
}

abbrev describe_all : (ℕ → String) → (ℕ → Member) → List ℕ → List MemberlistMember
describe_all format heap [] = []
describe_all format heap (p ∷ ps) = describe format (heap p) ∷ describe_all format heap ps

module _ (env : Env) where
  -- The loop over the nodes, of which there are `count`.
  first_loop : ℕ → ℤ → List (String × Node) → Daemon FirstPass
  first_loop count score [] = pure (FirstPass.undecided score)
  first_loop count score (e ∷ es) = do
    found ← get_member_by_hostname env e.1.hostname
    active ← gets (λ w. (get_active_member w).1)
    let rest : ℤ → Daemon FirstPass = λ z. first_loop count z es
    let compared : Daemon FirstPass = (do
      p ← deref found
      z ← gets (λ w. (w.heap p).score)
      if ltb_ℤ score (pos 0)
          then rest z
          else if not (eq_ℤ score z)
          then pure (FirstPass.undecided (negsuc 0))
          else pure (FirstPass.decided active))
    if count == 1 then pure (FirstPass.decided found) else compared

  -- The loop that looks for a higher score than the one so far.
  unfoldable pub second_loop : ℤ → Option ℕ → List (String × Node) → Daemon (Option ℕ)
  second_loop score winner [] = pure winner
  second_loop score winner (e ∷ es) = do
    found ← get_member_by_hostname env e.1.hostname
    p ← deref found
    z ← gets (λ w. (w.heap p).score)
    let better = second_loop z (some p) es
    let same = second_loop score winner es
    if ltb_ℤ score z then better else same

  after_first : FirstPass → Daemon (Option ℕ × Error)
  unfolding second_loop
  after_first (FirstPass.decided m) = pure (m, none)
  after_first (FirstPass.undecided score) = do
    es ← gets (λ w. env.reorder w.trace w.config.nodes.entries)
    winner ← second_loop score none es
    pure (winner, elim winner [ some p ↦ none | none ↦ some "failed to find winning member" ])

  -- GetHighestScoreMember
  unfoldable pub get_highest_score_member : Daemon (Option ℕ × Error)
  unfolding first_loop after_first
  get_highest_score_member = do
    count ← gets (λ w. node_count w.config)
    es ← gets (λ w. w.config.nodes.entries)
    r ← first_loop count (negsuc 0) es
    after_first r

  check_one : String → ℕ → Daemon Unit
  check_one own p = do
    m ← gets (λ w. w.heap p)
    ms ← gets (λ w. describe_all env.format_time w.heap w.members)
    if str_eq m.hostname own
        then skip
        else if not m.hc_busy && is_passive m.status
        then modify (log_event (spawned (Routine.routine_hc p ms)))
        else skip

  check_winner : ℕ → Option ℕ × Error → Daemon Bool
  unfolding check_one
  check_winner l (winner, some e) = panic
  check_winner l (none, none) = panic
  check_winner l (some p, none) = do
    own ← gets (λ w. (w.heap l).hostname)
    host ← gets (λ w. (w.heap p).hostname)
    ps ← gets (λ w. w.members)
    if not (p == l)
        then (do promote_member env host; pure true)
        else (do for_each ps (check_one own); pure false)

  handle_local : ℕ × Error → Daemon Bool
  unfolding check_winner
  handle_local (l, some e) = pure true
  handle_local (l, none) = do
    passive ← gets (λ w. is_passive (w.heap l).status)
    if passive then pure true else (do r ← get_highest_score_member; check_winner l r)

  -- AddHealthCheckHandler: true ends the routine.
  unfoldable pub add_health_checks : Daemon Bool
  unfolding handle_local
  add_health_checks = do
    clustered ← gets (λ w. cluster_check w.config)
    if not clustered then pure true else (do l ← get_local_member env; handle_local l)
