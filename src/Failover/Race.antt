-- ===== src/Failover/Race.antt =====
-- Which of several passive nodes takes over.
use pulseha.Base.{ℕ, String, List, ◌∷◌, true, false, some, ◌≡◌, ◌≢◌, refl, ap, ◌∙◌, In}
use pulseha.Base.Int.{ltb_ℤ, div_pos}
use pulseha.Exec.{returned}
use pulseha.Config.{Config, Node}
use pulseha.World.{World, Env}
use pulseha.Member.Sending.{IsReachable, CanDial}
use pulseha.MemberList.{is_passive}
use pulseha.Failover.{seconds_since, monitor_received, get_next_active_member, next_loop}
use pulseha.Failover.Election.{get_member_by_hostname_lem}
use pulseha.Failover.Watch.{IsWatcher, patience}
use pulseha.Failover.Stage.{Stage, Stage-find_in}
use pulseha.Failover.Accession.{IsTakenOver}
use pulseha.Failover.Deadline.{IsChosen, monitor_received_chosen}

module _ (env : Env) (p : ℕ) (w : World) (l : ℕ) (i : IsWatcher w l) where
  head_elected :
      (uid : String) (rest : List (String × Node)) (s : World)
      → i.node.hostname ≢ ""
      → Stage w l s
      → next_loop env ((uid, i.node) ∷ rest) s ≡ (returned (some l), s)
  unfolding next_loop
  head_elected uid rest s named g =
      rw
        (
          get_member_by_hostname_lem env i.node.hostname s named g.linked.free,
          Stage-find_in w l s i.node.hostname g ∙ i.found,
          g.own,
        )
        refl

  first-IsChosen :
      (uid : String) (rest : List (String × Node))
      → w.config.nodes.entries ≡ (uid, i.node) ∷ rest
      → i.node.hostname ≢ ""
      → IsChosen env p w l i
  unfolding get_next_active_member
  first-IsChosen uid rest order named s g =
      ap (λ es. next_loop env es s) (ap (λ (c : Config). c.nodes.entries) g.config ∙ order)
      ∙ head_elected uid rest s named g

  -- However many nodes are passive: once as many whole seconds have passed since the last health check as
  -- the limit has, a passive local node with every member reachable takes over if the range over the map of
  -- nodes meets it first, where grpc.Dial gives connections.
  pub monitor_received_first :
      CanDial env
      → (uid : String) (rest : List (String × Node)) → w.config.nodes.entries ≡ (uid, i.node) ∷ rest
      → i.node.hostname ≢ ""
      → is_passive (w.heap l).status ≡ true
      → ((q : ℕ) → In q w.members → IsReachable (w.heap q))
      → ltb_ℤ
          (seconds_since (env.now w.trace) (w.heap p).last_hc_response)
          (div_pos (patience w) 1000)
        ≡ false
      → IsTakenOver w l (monitor_received env p w)
  monitor_received_first dials uid rest order named passive reachable late =
      monitor_received_chosen env p w l i dials passive reachable
        (first-IsChosen uid rest order named) late
