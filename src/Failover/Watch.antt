-- ===== src/Failover/Watch.antt =====
-- MonitorReceivedHCs: when a passive node waits for the active one, and when it stops to watch.
use pulseha.Base.{
  ℕ, suc, Bool, true, false, ◌&&◌, Option, none, some, ◌≡◌, ◌⊎◌, inl, inr, refl, arith,
  if◌then◌else◌, ltb, ◌==◌, Bool-cases,
}
use pulseha.Base.Int.{ℤ, ltb_ℤ, div_pos, add_int64}
use pulseha.Exec.{Outcome, returned}
use pulseha.Config.{Node, cluster_check, get_local_node}
use pulseha.World.{World, Env, Status, with_lock}
use pulseha.Member.{set_status}
use pulseha.MemberList.{find_in, is_active, get_active_member, get_local_member}
use pulseha.Failover.{
  seconds_since, fail_over_limit, is_suspicion_due, suspect_if, suspect, check_elapsed, watch,
  monitor_received,
}

-- The local member, at `l`, can be found, and nobody holds the list.
pub record IsWatcher (w : World) (l : ℕ) : Type 0 where
  pub node : Node
  pub free : w.locked ≡ false
  pub clustered : cluster_check w.config ≡ true
  pub local : get_local_node w.config ≡ (node, none)
  pub found : find_in node.hostname w ≡ some l

-- How long to wait, in milliseconds: twice as long at the first round after a start.
abbrev pub patience : World → ℤ
patience w =
    let limit = w.config.pulse.fail_over_limit in
    if w.start_delay && ltb w.start_interval 1 then add_int64 limit limit else limit

-- Nothing happened but that the active member may be suspected now.
pub record IsWait (w w' : World) : Type 0 where
  pub config : w'.config ≡ w.config
  pub members : w'.members ≡ w.members
  pub status :
      (q : ℕ)
      → ((w'.heap q).status ≡ (w.heap q).status)
        ⊎ (((get_active_member w).1 ≡ some q) × ((w'.heap q).status ≡ Status.suspicious))
  pub responses : (q : ℕ) → (w'.heap q).last_hc_response ≡ (w.heap q).last_hc_response

pub get_local_member_lem :
    (env : Env) (w : World) (l : ℕ)
    → IsWatcher w l
    → get_local_member env w ≡ (returned (l, none), w)
unfolding get_local_member with_lock
get_local_member_lem env w l i = rw (i.free, i.local, i.found) refl

-- A suspicion does nothing or marks the active member.
pub suspect_if_cases :
    (env : Env) (w : World) (due : Bool) (found : Option ℕ)
    → (suspect_if env due found w ≡ (returned tt, w))
      ⊎ ((a : ℕ) × (found ≡ some a)
          × (suspect_if env due found w ≡ set_status a Status.suspicious w))
unfolding suspect_if
suspect_if_cases env w true (some a) = inr (a, refl, refl)
suspect_if_cases env w true none = inl refl
suspect_if_cases env w false found = inl refl

IsWait-stay :
    (w : World) (d : Bool) (n : ℕ) → IsWait w (record w { start_delay = d; start_interval = n })
IsWait-stay w d n = record {
  config = refl;
  members = refl;
  status = λ q. inl refl;
  responses = λ q. refl;
}

IsWait-suspected :
    (w : World) (d : Bool) (n a : ℕ)
    → (get_active_member w).1 ≡ some a
    → IsWait w (record (set_status a Status.suspicious w).1 { start_delay = d; start_interval = n })
unfolding set_status
IsWait-suspected w d n a active = record {
  config = refl;
  members = refl;
  status = λ q. elim (Bool-cases (a == q)) [
    | inl same ↦ inr (ground (arith, active, same), ground (arith, same))
    | inr other ↦ inl (ground (arith, other))
  ];
  responses = λ q. ground arith;
}

abbrev pub IsWaiting : World → Outcome Bool × World → Type 0
IsWaiting w r = (r.0 ≡ returned false) × IsWait w r.1

pub fail_over_limit_lem :
    (env : Env) (w : World)
    → (d : Bool) × (n : ℕ) × (fail_over_limit env w
        ≡ (returned (patience w), record w { start_delay = d; start_interval = n }))
unfolding fail_over_limit
fail_over_limit_lem env w = elim (Bool-cases (w.start_delay && ltb w.start_interval 1)) [
  | inl first ↦ (w.start_delay, suc w.start_interval, rw first refl)
  | inr later ↦ (false, w.start_interval, rw later refl)
]

check_elapsed-IsWaiting :
    (env : Env) (p : ℕ) (w : World)
    → ltb_ℤ
        (seconds_since (env.now w.trace) (w.heap p).last_hc_response)
        (div_pos (patience w) 1000)
      ≡ true
    → IsWaiting w (check_elapsed env p w)
unfolding check_elapsed suspect set_status
check_elapsed-IsWaiting env p w early =
    elim (suspect_if_cases env w
      (is_suspicion_due env (seconds_since (env.now w.trace) (w.heap p).last_hc_response))
      (get_active_member w).1) [
        | inl calm ↦
            let (d, n, limit) = fail_over_limit_lem env w in
            rw (calm, limit, early) (refl, IsWait-stay w d n)
        | inr (a, active, marked) ↦
            let (d, n, limit) = fail_over_limit_lem env (set_status a Status.suspicious w).1 in
            rw (marked, limit, early) (refl, IsWait-suspected w d n a active)
      ]

-- In a cluster with the list free, a round of MonitorReceivedHCs that finds the local member active
-- ends the routine and changes nothing.
pub monitor_received_ends :
    (env : Env) (p l : ℕ) (w : World)
    → IsWatcher w l
    → is_active (w.heap l).status ≡ true
    → monitor_received env p w ≡ (returned true, w)
unfolding monitor_received watch
monitor_received_ends env p l w i active =
    rw (i.clustered, get_local_member_lem env w l i, active) refl

-- In a cluster with the local member known and the list free: while fewer whole seconds have passed
-- since the last health check than the limit has, which is doubled for the first round after a start, a
-- node that is not active goes on watching: configuration, list and response times stay, and no status
-- changes but that of the active member, to suspicious.
pub monitor_received_waits :
    (env : Env) (p l : ℕ) (w : World)
    → IsWatcher w l
    → is_active (w.heap l).status ≡ false
    → ltb_ℤ
        (seconds_since (env.now w.trace) (w.heap p).last_hc_response)
        (div_pos (patience w) 1000)
      ≡ true
    → IsWaiting w (monitor_received env p w)
unfolding monitor_received watch check_elapsed fail_over_limit
monitor_received_waits env p l w i passive early =
    rw (i.clustered, get_local_member_lem env w l i, passive)
      (check_elapsed-IsWaiting env p w early)
