-- ===== src/Failover/Deadline.antt =====
-- MonitorReceivedHCs once the limit has passed.
use mathlib.Core.Path.{subst}
use pulseha.Base.{
  ℕ, String, List, [], Bool, true, false, false≢true, none, some, ◌≡◌, ◌⊎◌, inl, inr, refl, sym, ap,
  ◌∙◌, arith, ◌==◌, Bool-cases, In,
}
use pulseha.Base.Int.{ltb_ℤ, div_pos}
use pulseha.Exec.{Outcome, returned, ◌>>=◌}
use pulseha.Config.{Config, Node, get_local_node, cluster_check}
use pulseha.World.{World, Env, Status, Plugin}
use pulseha.Member.{set_status, inform_all, plugins_of, is_general}
use pulseha.Member.Sending.{IsReachable, CanDial}
use pulseha.MemberList.{find_in, is_passive, get_active_member}
use pulseha.Failover.Election.{IsCovered, IsElection, get_next_active_member-IsElection}
use pulseha.Failover.Watch.{
  IsWatcher, patience, get_local_member_lem, suspect_if_cases, fail_over_limit_lem,
}
use pulseha.Failover.{
  seconds_since, is_suspicion_due, suspect, check_elapsed, fail_over, watch, monitor_received,
  get_next_active_member,
}
use pulseha.Failover.Stage.{
  Stage, local_In, get_active_member-active, passive_not_active, down_not_passive, Stage-mark,
  find-hostname, Stage-find_in,
}
use pulseha.Failover.Accession.{IsTakenOver, take_over-IsTakenOver}

module _ (env : Env) (p : ℕ) (w : World) (l : ℕ) (i : IsWatcher w l) where
  -- Only `l` is passive among the nodes' members.
  abbrev pub IsOnlyPassive : Type 0
  IsOnlyPassive =
      (e : String × Node) (q : ℕ)
      → In e w.config.nodes.entries
      → find_in e.1.hostname w ≡ some q
      → is_passive (w.heap q).status ≡ true
      → q ≡ l

  Stage-IsCovered :
      (s : World)
      → Stage w l s
      → IsCovered w.config.nodes.entries w
      → IsCovered s.config.nodes.entries s
  Stage-IsCovered s g c e m =
      let (named, (q, found)) = c e (subst (λ (d : Config). In e d.nodes.entries) g.config m) in
      (named, (q, Stage-find_in w l s e.1.hostname g ∙ found))

  passive_before :
      (s : World) (q : ℕ)
      → Stage w l s
      → is_passive (s.heap q).status ≡ true
      → (q ≡ l) ⊎ (is_passive (w.heap q).status ≡ true)
  passive_before s q g passive = elim (Bool-cases (q == l)) [
    | inl same ↦ inl (ground (arith, same))
    | inr other ↦ elim (g.others q (ground (arith, other))) [
      | inl kept ↦ inr (ap is_passive (sym kept) ∙ passive)
      | inr (was, now) ↦ absurd (down_not_passive (s.heap q).status now passive)
    ]
  ]

  elect :
      (s : World)
      → Stage w l s
      → IsOnlyPassive
      → IsElection s.config.nodes.entries s (get_next_active_member env s)
      → get_next_active_member env s ≡ (returned (some l), s)
  elect s g only (some q, ran, (e, m, found, passive)) =
      ran
      ∙ ap (λ a. (returned (some a), s))
          (elim (passive_before s q g passive) [
            | inl same ↦ same
            | inr before ↦
                only e q (subst (λ (d : Config). In e d.nodes.entries) g.config m)
                  (sym (Stage-find_in w l s e.1.hostname g) ∙ found) before
          ])
  elect s g only (none, ran, all) =
      let (e, m, same) = local_In w.config i.node i.local in
      let found =
        Stage-find_in w l s e.1.hostname g ∙ ap (λ n. find_in n.hostname w) same ∙ i.found in
      absurd (
        false≢true (
          sym (all e l (subst (λ (d : Config). In e d.nodes.entries) (sym g.config) m) found)
          ∙ g.own))

  Stage-delay :
      (s : World) (d : Bool) (k : ℕ)
      → Stage w l s
      → Stage w l (record s { start_delay = d; start_interval = k })
  Stage-delay s d k g = record {
    config = g.config;
    members = g.members;
    linked = record { free = g.linked.free; reachable = g.linked.reachable };
    hostnames = g.hostnames;
    own = g.own;
    others = g.others;
  }

  own_name : (w.heap l).hostname ≡ i.node.hostname
  own_name = find-hostname w.heap i.node.hostname w.members l i.found

  fail_over-IsTakenOver :
      CanDial env → (s : World) → Stage w l s → IsTakenOver w l (fail_over env p (some l) s)
  unfolding fail_over
  fail_over-IsTakenOver dials s g =
      rw (ap get_local_node g.config ∙ i.local)
        (take_over-IsTakenOver env dials p w l i.node s i.local own_name g)

  -- As many whole seconds have passed as the limit has.
  abbrev pub IsLate : World → Type 0
  IsLate s =
      ltb_ℤ (seconds_since (env.now s.trace) (s.heap p).last_hc_response)
        (div_pos (patience s) 1000)
      ≡ false

  abbrev pub IsEarly : World → Type 0
  IsEarly s =
      ltb_ℤ (seconds_since (env.now s.trace) (s.heap p).last_hc_response)
        (div_pos (patience s) 1000)
      ≡ true

  -- A round that goes on: it may have suspected the active member, and informed the plugins.
  pub record IsHeld (s : World) (r : Outcome Bool × World) : Type 0 where
    pub waits : r.0 ≡ returned false
    pub stage : Stage w l r.1
    pub response : (r.1.heap p).last_hc_response ≡ (s.heap p).last_hc_response
    pub informed : (ps : List Plugin) × (r.1.trace ≡ inform_all ps s.trace)

  -- The election picks `l`, in every state that a round passes through before it.
  abbrev pub IsChosen : Type 0
  IsChosen = (s : World) → Stage w l s → get_next_active_member env s ≡ (returned (some l), s)

  decide :
      CanDial env
      → (s : World) → Stage w l s
      → IsChosen
      → IsTakenOver w l ((get_next_active_member env >>= fail_over env p) s)
  decide dials s g chosen = rw (chosen s g) (fail_over-IsTakenOver dials s g)

  check_elapsed-IsTakenOver :
      CanDial env
      → (s : World) → Stage w l s
      → IsChosen
      → IsLate s
      → IsTakenOver w l (check_elapsed env p s)
  unfolding check_elapsed suspect set_status
  check_elapsed-IsTakenOver dials s g chosen late =
      elim (suspect_if_cases env s
        (is_suspicion_due env (seconds_since (env.now s.trace) (s.heap p).last_hc_response))
        (get_active_member s).1) [
          | inl calm ↦
              let (d, k, limit) = fail_over_limit_lem env s in
              rw (calm, limit, late) (decide dials _ (Stage-delay s d k g) chosen)
          | inr (a, active, marked) ↦
              let t = (set_status a Status.suspicious s).1 in
              let (d, k, limit) = fail_over_limit_lem env t in
              rw (marked, limit, late)
                (decide dials _
                  (Stage-delay t d k (
                    Stage-mark w l a Status.suspicious s g (get_active_member-active s a active)
                      refl))
                  chosen)
        ]

  check_elapsed-IsHeld :
      (s : World)
      → Stage w l s
      → ltb_ℤ
          (seconds_since (env.now s.trace) (s.heap p).last_hc_response)
          (div_pos (patience s) 1000)
        ≡ true
      → IsHeld s (check_elapsed env p s)
  unfolding check_elapsed suspect set_status inform_all
  check_elapsed-IsHeld s g early =
      elim (suspect_if_cases env s
        (is_suspicion_due env (seconds_since (env.now s.trace) (s.heap p).last_hc_response))
        (get_active_member s).1) [
          | inl calm ↦
              let (d, k, limit) = fail_over_limit_lem env s in
              rw (calm, limit, early)
                (record {
                  waits = refl;
                  stage = Stage-delay s d k g;
                  response = refl;
                  informed = ([], refl);
                })
          | inr (a, active, marked) ↦
              let t = (set_status a Status.suspicious s).1 in
              let (d, k, limit) = fail_over_limit_lem env t in
              rw (marked, limit, early)
                (record {
                  waits = refl;
                  stage = Stage-delay t d k (
                      Stage-mark w l a Status.suspicious s g (get_active_member-active s a active)
                        refl);
                  response = ground arith;
                  informed = (plugins_of is_general s.modules, refl);
                })
        ]

  -- The local member can be found in every such state.
  Stage-IsWatcher : (s : World) → Stage w l s → IsWatcher s l
  Stage-IsWatcher s g = record {
    node = i.node;
    free = g.linked.free;
    clustered = ap cluster_check g.config ∙ i.clustered;
    local = ap get_local_node g.config ∙ i.local;
    found = Stage-find_in w l s i.node.hostname g ∙ i.found;
  }

  -- A round either takes over or waits.
  pub monitor_received-IsRound :
      CanDial env
      → (s : World) → Stage w l s
      → IsChosen
      → (IsLate s × IsTakenOver w l (monitor_received env p s))
        ⊎ (IsEarly s × IsHeld s (monitor_received env p s))
  unfolding monitor_received watch
  monitor_received-IsRound dials s g chosen =
      let j = Stage-IsWatcher s g in
      let passive = passive_not_active (s.heap l).status g.own in
      elim (Bool-cases (
        ltb_ℤ (seconds_since (env.now s.trace) (s.heap p).last_hc_response)
          (div_pos (patience s) 1000))) [
            | inl early ↦ inr (
              early,
              rw (j.clustered, get_local_member_lem env s l j, passive)
                  (check_elapsed-IsHeld s g early),
            )
            | inr late ↦ inl (
              late,
              rw (j.clustered, get_local_member_lem env s l j, passive)
                  (check_elapsed-IsTakenOver dials s g chosen late),
            )
          ]

  -- The state before the first round.
  pub Stage-start :
      is_passive (w.heap l).status ≡ true
      → ((q : ℕ) → In q w.members → IsReachable (w.heap q))
      → Stage w l w
  Stage-start passive reachable = record {
    config = refl;
    members = refl;
    linked = record { free = i.free; reachable = reachable };
    hostnames = λ q. refl;
    own = passive;
    others = λ q apart. inl refl;
  }

  pub only-IsChosen : IsCovered w.config.nodes.entries w → IsOnlyPassive → IsChosen
  only-IsChosen covered only s g =
      elect s g only
        (get_next_active_member-IsElection env s g.linked.free (Stage-IsCovered s g covered))

  pub monitor_received_chosen :
      CanDial env
      → is_passive (w.heap l).status ≡ true
      → ((q : ℕ) → In q w.members → IsReachable (w.heap q))
      → IsChosen
      → IsLate w
      → IsTakenOver w l (monitor_received env p w)
  monitor_received_chosen dials passive reachable chosen late =
      elim (monitor_received-IsRound dials w (Stage-start passive reachable) chosen) [
        | inl (due, taken) ↦ taken
        | inr (early, held) ↦ absurd (false≢true (sym late ∙ early))
      ]

  -- In a cluster with the list free, every node a named host with a member, connections from grpc.Dial and every member with a usable
  -- client: once as many whole seconds have passed since the last health check as the limit has, a round
  -- of MonitorReceivedHCs ends with the local member active, if that is the only passive one of the
  -- nodes' members. Of the others at most members that were active have a new status, which is down;
  -- configuration and list stay as they were.
  pub monitor_received-IsTakenOver :
      CanDial env
      → is_passive (w.heap l).status ≡ true
      → ((q : ℕ) → In q w.members → IsReachable (w.heap q))
      → IsCovered w.config.nodes.entries w
      → IsOnlyPassive
      → ltb_ℤ
          (seconds_since (env.now w.trace) (w.heap p).last_hc_response)
          (div_pos (patience w) 1000)
        ≡ false
      → IsTakenOver w l (monitor_received env p w)
  monitor_received-IsTakenOver dials passive reachable covered only late =
      monitor_received_chosen dials passive reachable (only-IsChosen covered only) late
