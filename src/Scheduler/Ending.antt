-- ===== src/Scheduler/Ending.antt =====
-- When the scheduler of a passive node's watch ends.
use mathlib.Core.Path.{subst}
use pulseha.Base.{
  ℕ, false≢true, zero, suc, List, [], ◌∷◌, true, ◌≡◌, inl, inr, refl, sym, ap, ◌∙◌, ◌<◌, ◌≤◌, ◌+◌,
  arith, In, Bool-cases, ltb,
}
use pulseha.World.{World, Env, Plugin, Trace, ticked, log_event}
use pulseha.Member.{inform_all}
use pulseha.Member.Sending.{IsReachable, CanDial}
use pulseha.MemberList.{is_passive}
use pulseha.Failover.{monitor_received}
use pulseha.Failover.Election.{IsCovered}
use pulseha.Failover.Watch.{IsWatcher}
use pulseha.Failover.Stage.{Stage}
use pulseha.Failover.Accession.{IsTakenOver}
use pulseha.Failover.Deadline.{
  IsOnlyPassive, IsLate, IsEarly, IsChosen, monitor_received-IsRound, only-IsChosen, Stage-start,
}
use pulseha.Scheduler.{schedule, ticks}

ticks-inform_all : (ps : List Plugin) (t : Trace) → ticks (inform_all ps t) ≡ ticks t
unfolding ticks inform_all
ticks-inform_all [] t = refl
ticks-inform_all (p ∷ ps) t = ticks-inform_all ps _

module _ (env : Env) (p : ℕ) (w : World) (l : ℕ) (i : IsWatcher w l) (k : ℕ) where
  -- After `k` more ticks as many seconds have passed as the limit has, if no health check came.
  abbrev pub IsDue : Type 0
  IsDue =
      (s : World)
      → s.config ≡ w.config
      → (s.heap p).last_hc_response ≡ (w.heap p).last_hc_response
      → ticks w.trace + k ≤ ticks s.trace
      → IsLate env p w l i s

  Stage-tick : (s : World) → Stage w l s → Stage w l (log_event ticked s)
  Stage-tick s g = record {
    config = g.config;
    members = g.members;
    linked = record { free = g.linked.free; reachable = g.linked.reachable };
    hostnames = g.hostnames;
    own = g.own;
    others = g.others;
  }

  -- Before the limit has passed, less than `k` ticks were.
  sooner :
      IsDue
      → (s : World) → Stage w l s
      → (s.heap p).last_hc_response ≡ (w.heap p).last_hc_response
      → IsEarly env p w l i s
      → ticks s.trace < ticks w.trace + k
  sooner due s g same early = elim (Bool-cases (ltb (ticks s.trace) (ticks w.trace + k))) [
    | inl before ↦ ground (arith, before)
    | inr after ↦ absurd (false≢true (sym (due s g.config same (ground (arith, after))) ∙ early))
  ]

  schedule_stage :
      IsDue
      → IsChosen env p w l i
      → CanDial env
      → (n : ℕ) (s : World) → Stage w l s
      → (s.heap p).last_hc_response ≡ (w.heap p).last_hc_response
      → ticks s.trace ≤ ticks w.trace + k
      → ticks w.trace + k < ticks s.trace + n
      → IsTakenOver w l (schedule n (monitor_received env p) s)
  unfolding schedule ticks
  schedule_stage due chosen dials zero s g same soon enough = absurd (omega (arith, soon, enough))
  schedule_stage due chosen dials (suc n) s g same soon enough =
      let t = log_event ticked s in
      let u = (monitor_received env p t).1 in
      elim (monitor_received-IsRound env p w l i dials t (Stage-tick s g) chosen) [
        | inl (late, taken) ↦
            rw taken.ended (subst (IsTakenOver w l) (ap (λ x. (x, u)) taken.ended) taken)
        | inr (early, held) ↦
            let (ps, traced) = held.informed in
            let counted : ticks u.trace ≡ suc (ticks s.trace) =
              ap ticks traced ∙ ticks-inform_all ps t.trace in
            rw held.waits (
              schedule_stage due chosen dials n u held.stage (held.response ∙ same)
                (omega (arith, counted, sooner due t (Stage-tick s g) same early))
                (omega (arith, counted, enough)))
      ]

  -- The watch of a passive node on a silent active one, with the list free, every node a named host with a
  -- member, every member reachable, no other passive one among the nodes, and connections from grpc.Dial: if the limit has passed after
  -- `k` ticks without a health check, then with more than `k` ticks the scheduler ends, and the local
  -- member has taken over.
  pub schedule-IsTakenOver :
      CanDial env
      → (n : ℕ) → is_passive (w.heap l).status ≡ true
      → ((q : ℕ) → In q w.members → IsReachable (w.heap q))
      → IsCovered w.config.nodes.entries w
      → IsOnlyPassive env p w l i
      → IsDue
      → k < n
      → IsTakenOver w l (schedule n (monitor_received env p) w)
  schedule-IsTakenOver dials n passive reachable covered only due enough =
      schedule_stage due (only-IsChosen env p w l i covered only) dials n w
        (Stage-start env p w l i passive reachable) refl (omega arith) (omega (arith, enough))
