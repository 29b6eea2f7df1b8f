-- ===== src/Failover/Accession.antt =====
-- The last step of a take-over: the local member becomes active, with every call returning.
use pulseha.Base.{
  ℕ, String, Bool, true, none, eq_refl, ◌≡◌, inl, inr, refl, ap, ◌∙◌, arith, Option-cases,
}
use pulseha.Exec.{Outcome, returned, pure, ◌>>◌}
use pulseha.Exec.Keeps.{bind-returned}
use pulseha.Exec.Total.{Total, bind-Total}
use pulseha.Config.{Error, Node, get_local_node}
use pulseha.World.{World, Env, Status, LogLevel, store}
use pulseha.Member.{set_status, set_latency, set_last_hc_response, log}
use pulseha.Member.Frame.{Frame-refl, log-Frame}
use pulseha.Member.Sending.{IsLinked, CanDial, log-Total}
use pulseha.MemberList.{get_active_member}
use pulseha.Network.{make_local_active}
use pulseha.Network.Raising.{make_local_active-Total}
use pulseha.Failover.Takeover.{make_active-IsActivated, raised}
use pulseha.Failover.{take_over, make_active, activate, become_active, spawn}
use pulseha.Failover.Stage.{Stage, OthersDown, is_down, get_active_member-active, Stage-mark}

-- What a take-over leaves.
pub record IsTakenOver (w : World) (l : ℕ) (r : Outcome Bool × World) : Type 0 where
  pub ended : r.0 ≡ returned true
  pub now_active : (r.1.heap l).status ≡ Status.active
  pub others : OthersDown w l r.1
  pub config : r.1.config ≡ w.config
  pub members : r.1.members ≡ w.members

raised-IsLinked : (w : World) (p : ℕ) → IsLinked w → IsLinked (raised w p)
unfolding set_status set_latency set_last_hc_response
raised-IsLinked w p i = record {
  free = i.free;
  reachable = λ q m.
      let old = i.reachable q m in
      record { link = old.link; present = ground (arith, old.present); usable = old.usable };
}

abbrev NoError : Error → World → Type 0
NoError e t = (e ≡ none) × IsLinked t

become_active-Total :
    (env : Env) (dials : CanDial env) (p : ℕ) → Total IsLinked NoError (become_active env p)
unfolding become_active spawn set_status set_latency set_last_hc_response
become_active-Total env dials p s i =
    bind-Total IsLinked (λ _. IsLinked) NoError (make_local_active env) _
      (make_local_active-Total env dials)
      (λ _ t j. (none, refl, (refl, record { free = j.free; reachable = j.reachable })))
      (raised s p) (raised-IsLinked s p i)

-- MakeActive of the local member returns without an error.
pub make_active-own :
    (env : Env) (dials : CanDial env) (s : World) (p : ℕ) (n : Node)
    → get_local_node s.config ≡ (n, none)
    → (s.heap p).hostname ≡ n.hostname
    → IsLinked s
    → ((make_active env p s).0 ≡ returned none) × IsLinked (make_active env p s).1
unfolding make_active activate become_active spawn
make_active-own env dials s p n local own i =
    rw (local, own, eq_refl n.hostname)
      (of_total
        (become_active-Total env dials p _ (record { free = i.free; reachable = i.reachable })))
  where
    of_total :
        {r : Outcome Error × World}
        → (x : Error) × (r.0 ≡ returned x) × NoError x r.1
        → (r.0 ≡ returned none) × IsLinked r.1
    of_total (x, ret, (clean, j)) = (ret ∙ ap returned clean, j)

record Taking (w : World) (l : ℕ) (s : World) : Type 0 where
  config : s.config ≡ w.config
  members : s.members ≡ w.members
  linked : IsLinked s
  own : (s.heap l).status ≡ Status.active
  others : OthersDown w l s

make_active-Taking :
    (env : Env) (dials : CanDial env) (w : World) (l : ℕ) (n : Node) (s : World)
    → get_local_node w.config ≡ (n, none)
    → (w.heap l).hostname ≡ n.hostname
    → Stage w l s
    → ((make_active env l s).0 ≡ returned none) × Taking w l (make_active env l s).1
make_active-Taking env dials w l n s local own g =
    let here : get_local_node s.config ≡ (n, none) = ap get_local_node g.config ∙ local in
    let (ret, j) = make_active-own env dials s l n here (g.hostnames l ∙ own) g.linked in
    let a = make_active-IsActivated env s l n here (g.hostnames l ∙ own) in
    (
      ret,
      record {
        config = a.config ∙ g.config;
        members = a.members ∙ g.members;
        linked = j;
        own = a.status;
        others = λ q apart. elim (g.others q apart) [
          | inl same ↦ inl (a.others q apart ∙ same)
          | inr (was, now) ↦ inr (was, ap is_down (a.others q apart) ∙ now)
        ];
      },
    )

Taking-clock :
    (w : World) (l t : ℕ) (s : World)
    → Taking w l s
    → Taking w l (store l (λ m. record m { last_hc_response = t }) s)
Taking-clock w l t s g = record {
  config = g.config;
  members = g.members;
  linked = record {
    free = g.linked.free;
    reachable = λ q m.
        let old = g.linked.reachable q m in
        record { link = old.link; present = ground (arith, old.present); usable = old.usable };
  };
  own = ground (arith, g.own);
  others = λ q apart. elim (g.others q apart) [
    | inl same ↦ inl (ground (arith, same))
    | inr (was, now) ↦ inr (was, ground (arith, now))
  ];
}

IsTakenOver-log :
    (env : Env) (dials : CanDial env) (w : World) (l : ℕ) (s : World) (m : String)
    → Taking w l s
    → IsTakenOver w l ((log env LogLevel.info m >> pure true) s)
IsTakenOver-log env dials w l s m g =
    let (x, ret, j) = log-Total env dials LogLevel.info m s g.linked in
    let f = log-Frame env s LogLevel.info m s (Frame-refl s) in
    rw (bind-returned (log env LogLevel.info m) (λ _. pure true) s x ret) (record {
      ended = refl;
      now_active = (f.each l).status ∙ g.own;
      others = λ q apart. elim (g.others q apart) [
        | inl same ↦ inl ((f.each q).status ∙ same)
        | inr (was, now) ↦ inr (was, ap is_down (f.each q).status ∙ now)
      ];
      config = f.config ∙ g.config;
      members = f.members ∙ g.members;
    })

-- The log message at the end, and the cleared clock.
finish :
    (env : Env) (dials : CanDial env) (w : World) (l : ℕ) (s : World) (m : String)
    → Taking w l s
    → IsTakenOver w l ((set_last_hc_response l 0 >> (log env LogLevel.info m >> pure true)) s)
unfolding set_last_hc_response
finish env dials w l s m g = IsTakenOver-log env dials w l _ m (Taking-clock w l 0 s g)

activate_next :
    (env : Env) (dials : CanDial env) (w : World) (l : ℕ) (n : Node) (s : World) (m : String)
    → get_local_node w.config ≡ (n, none)
    → (w.heap l).hostname ≡ n.hostname
    → Stage w l s
    → IsTakenOver w l (
        (make_active env l >> (set_last_hc_response l 0 >> (log env LogLevel.info m >> pure true)))
          s)
activate_next env dials w l n s m local own g =
    let (ret, t) = make_active-Taking env dials w l n s local own g in
    rw ret (finish env dials w l _ m t)

-- From the mark on the former active member on.
pub take_over-IsTakenOver :
    (env : Env) (dials : CanDial env) (p : ℕ) (w : World) (l : ℕ) (n : Node) (s : World)
    → get_local_node w.config ≡ (n, none)
    → (w.heap l).hostname ≡ n.hostname
    → Stage w l s
    → IsTakenOver w l (take_over env p l (n, none) s)
unfolding take_over set_status
take_over-IsTakenOver env dials p w l n s local own g =
    elim (Option-cases (get_active_member s).1) [
      | inl nobody ↦
          rw (g.hostnames l, own, eq_refl n.hostname, nobody)
            (activate_next env dials w l n s "Local node is now active" local own g)
      | inr (a, found) ↦
          rw (g.hostnames l, own, eq_refl n.hostname, found)
            (activate_next env dials w l n (set_status a Status.unavailable s).1
              "Local node is now active" local own
              (Stage-mark w l a Status.unavailable s g (get_active_member-active s a found) refl))
    ]
