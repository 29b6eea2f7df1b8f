-- ===== src/Cluster/Handover.antt =====
-- PromoteMember of the other machine, on the active one.
use mathlib.Core.Path.{subst}
use pulseha.Base.{
  ℕ, String, List, [], ◌∷◌, true, false, none, some, str_eq, eq_iff, ◌≡◌, ◌≢◌, refl, sym, ap, ◌∙◌,
  arith, ◌==◌, Bool-cases, inl, inr, In,
}
use pulseha.Exec.{Outcome, returned}
use pulseha.Config.{Node, Error, get_local_node, get_node_hostname_by_address}
use pulseha.World.{World, Env, Member, Status, Trace, Request, sent}
use pulseha.Member.{set_status, connect, send, plugins_of, is_general}
use pulseha.Member.Frame.{Frame, Frame-refl, connect-Frame, logged}
use pulseha.Member.Sending.{IsLinked, Connected, connect-Total, connect_dialled}
use pulseha.MemberList.{find_in, find_member, get_active_member}
use pulseha.Failover.{tell, inform_failover, promote_member, make_active, make_passive}
use pulseha.Failover.Election.{get_member_by_hostname_lem}
use pulseha.Failover.Stage.{find-hostname}
use pulseha.Server.{Call, Reply}
use pulseha.Cluster.{Peer, IsDelivered, call_of, receive, replay}
use pulseha.Cluster.Quiet.{connect-At, replay-inform_failover}
use pulseha.Cluster.Demotion.{Stepping, set_status-Stepping, make_passive-Stepping, Stepping-trace}

-- The machine in the state `w`, with the active member `l` of its own, promotes the other machine, which
-- is in the state `v` and of hostname `h` here.
pub record IsProposal (q : Peer) (v w : World) (n : Node) (l : ℕ) (h : String) : Type 0 where
  pub local : get_local_node w.config ≡ (n, none)
  pub own : (w.heap l).hostname ≡ n.hostname
  pub former : (get_active_member w).1 ≡ some l
  pub linked : IsLinked w
  pub named : h ≢ ""
  pub other : h ≢ n.hostname
  pub found : find_in h w ≡ some q.member
  pub waiting : (w.heap q.member).status ≡ Status.passive
  pub unaware : replay q w.trace ≡ v
  pub sender : String
  pub known : get_node_hostname_by_address v.config q.address ≡ (sender, none)

-- What the promotion leaves on this machine.
pub record IsHandedOver (w : World) (l : ℕ) (r : Outcome Error × World) : Type 0 where
  pub ended : r.0 ≡ returned none
  pub stepped_down : (r.1.heap l).status ≡ Status.passive
  pub others : (x : ℕ) → x ≢ l → (r.1.heap x).status ≡ (w.heap x).status
  pub config : r.1.config ≡ w.config
  pub members : r.1.members ≡ w.members

pub find-In :
    (heap : ℕ → Member) (h : String) (ps : List ℕ) (p : ℕ)
    → find_member heap h ps ≡ some p
    → In p ps
find-In heap h [] p found = absurd cc
find-In heap h (x ∷ ps) p found = elim (Bool-cases (str_eq (heap x).hostname h)) [
  | inl hit ↦ inl (ground (arith, hit, found))
  | inr miss ↦ inr (find-In heap h ps p (ground (arith, miss, found)))
]

Frame-trace : (s : World) (t : Trace) (u : World) → Frame (record s { trace = t }) u → Frame s u
Frame-trace s t u f = record {
  config = f.config;
  modules = f.modules;
  members = f.members;
  next = f.next;
  start_delay = f.start_delay;
  start_interval = f.start_interval;
  file = f.file;
  each = f.each;
}

module _ (env : Env) (q : Peer) (d : IsDelivered env q) (v w : World) (l : ℕ) (h : String)
    (x : Reply) (reply : (receive q (some (Call.promote h)) v).0 ≡ returned x)
    (let_in : x ≢ Reply.unauthorized) where
  -- The state of the other machine after the request.
  abbrev pub told : World
  told = (receive q (some (Call.promote h)) v).1

  answered : (t : Trace) → replay q t ≡ v → env.answers t q.member (Request.promote h) ≡ none
  unfolding call_of
  answered t at =
      d.answers t (Request.promote h) x
        (ap (λ u. (receive q (some (Call.promote h)) u).0) at ∙ reply) let_in

  sent-told : (t : Trace) → replay q t ≡ v → replay q (sent q.member (Request.promote h) ∷ t) ≡ told
  unfolding replay call_of
  sent-told t at = rw (at, self q.member) refl
    where
      self : (n : ℕ) → (n == n) ≡ true
      self n = ground arith

  tell-told :
      (s : World)
      → Stepping q v w l s
      → In q.member s.members
      → ((tell env q.member (Request.promote h) s).0 ≡ returned none)
        × Frame s (tell env q.member (Request.promote h) s).1
        × (replay q (tell env q.member (Request.promote h) s).1.trace ≡ told)
  unfolding tell send
  tell-told s g m =
      let p = q.member in
      let ret = connect_dialled env p s (g.linked.reachable p m) d.dials in
      let (y, ret', post) = connect-Total env d.own s.members p m s g.linked.reachable in
      let clean : y ≡ none = cc in
      let (all, (c, (present, there))) =
        subst (λ e. Connected s.members p e (connect env p s).1) clean post in
      let at = connect-At env q v p s g.unaware in
      let t = (connect env p s).1 in
      rw (ret, present, there)
        (
          ap returned (answered t.trace at),
          logged env s t _ (connect-Frame env s p s (Frame-refl s)),
          sent-told t.trace at,
        )

  module _ (n : Node) (i : IsProposal q v w n l h) where
    proposed : Stepping q v w l w
    proposed = record {
      config = refl;
      members = refl;
      linked = i.linked;
      hostnames = λ x. refl;
      others = λ x apart. refl;
      unaware = i.unaware;
    }

    IsHandedOver-Frame :
        (s t : World)
        → Stepping q v w l s
        → (s.heap l).status ≡ Status.passive
        → Frame s t
        → IsHandedOver w l (returned none, t)
    IsHandedOver-Frame s t g down f = record {
      ended = refl;
      stepped_down = (f.each l).status ∙ down;
      others = λ x apart. (f.each x).status ∙ g.others x apart;
      config = f.config ∙ g.config;
      members = f.members ∙ g.members;
    }

    -- The other member is told to become active.
    make_active-told :
        (s : World)
        → Stepping q v w l s
        → ((make_active env q.member s).0 ≡ returned none)
          × Frame s (make_active env q.member s).1
          × (replay q (make_active env q.member s).1.trace ≡ told)
    unfolding make_active
    make_active-told s g =
        let informed = inform_failover (plugins_of is_general s.modules) s.trace in
        let s' = record s { trace = informed } in
        let host : (s.heap q.member).hostname ≡ h =
          g.hostnames q.member ∙ find-hostname w.heap h w.members q.member i.found in
        let apart : str_eq h n.hostname ≡ false = ground (arith, i.other, eq_iff h n.hostname) in
        let m = subst (In q.member) (sym g.members) (find-In w.heap h w.members q.member i.found) in
        let (ret, f, at) =
          tell-told s'
            (Stepping-trace env q v w l s informed (replay-inform_failover q _ s.trace) g) m in
        rw (ap get_local_node g.config ∙ i.local, host, apart) (ret, Frame-trace s informed _ f, at)

    pub promote_member-IsHandedOver :
        IsHandedOver w l (promote_member env h w)
        × (replay q (promote_member env h w).1.trace ≡ told)
    unfolding promote_member set_status
    promote_member-IsHandedOver =
        let (ret, g) =
          make_passive-Stepping env q v w l d.own i.sender i.known n w i.local i.own proposed in
        let t = (make_passive env l w).1 in
        let u = (set_status l Status.passive t).1 in
        let after : Stepping q v w l u = set_status-Stepping env q v w l Status.passive t g in
        rw
          (
            get_member_by_hostname_lem env h w i.named i.linked.free,
            i.found,
            i.waiting,
            i.former,
            ret,
          )
          (let (done, f, at) = make_active-told u after in
            rw done (IsHandedOver-Frame u _ after (ground arith) f, at))
