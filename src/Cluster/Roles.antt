-- ===== src/Cluster/Roles.antt =====
-- The roles of both machines after a promotion.
use mathlib.Core.Path.{subst}
use pulseha.Base.{ℕ, String, none, some, true, [], ◌∷◌, concat, eq_refl, ◌≡◌, ◌≢◌, refl, sym}
use pulseha.Exec.{returned}
use pulseha.Config.{Node, get_local_node, get_node_hostname_by_address}
use pulseha.World.{World, Env, LogLevel}
use pulseha.Member.Sending.{IsLinked, CanDial, log-Total}
use pulseha.MemberList.{find_in}
use pulseha.Failover.{promote_member, make_active}
use pulseha.Failover.Election.{get_member_by_hostname_lem}
use pulseha.Failover.Stage.{find-hostname}
use pulseha.Failover.Takeover.{IsActivated}
use pulseha.Failover.Accession.{make_active-own}
use pulseha.Server.{Call, Reply, serve, handle}
use pulseha.Server.Guard.{serve_known, serve-promote}
use pulseha.Cluster.{Peer, IsDelivered, receive, replay}
use pulseha.Cluster.Handover.{IsProposal, IsHandedOver, promote_member-IsHandedOver}

-- The local node of the state `v` is `m`, its member is `b`, and all members can be sent to.
pub record IsAtHome (v : World) (m : Node) (b : ℕ) : Type 0 where
  pub local : get_local_node v.config ≡ (m, none)
  pub found : find_in m.hostname v ≡ some b
  pub linked : IsLinked v

-- A request to promote the local node is answered with success.
serve-promote_replied :
    (env : Env) (dials : CanDial env) (ip sender : String) (m : Node) (b : ℕ) (v : World)
    → get_node_hostname_by_address v.config ip ≡ (sender, none)
    → m.hostname ≢ ""
    → IsAtHome v m b
    → (serve env (some ip) (Call.promote m.hostname) v).0 ≡ returned (Reply.replied true "")
unfolding handle
serve-promote_replied env dials ip sender m b v known named i =
    let (ret, j) =
      make_active-own env dials v b m i.local (find-hostname v.heap m.hostname v.members b i.found)
        i.linked in
    let (x, logged, k) =
      log-Total env dials LogLevel.info (concat (m.hostname ∷ " has been promoted to active" ∷ []))
        (make_active env b v).1 j in
    rw
      (
        serve_known env ip sender (Call.promote m.hostname) v known,
        i.local,
        eq_refl m.hostname,
        get_member_by_hostname_lem env m.hostname v named i.linked.free,
        i.found,
        ret,
        logged,
      )
      refl

module _ (env : Env) (q : Peer) (d : IsDelivered env q) (v w : World) (l : ℕ) (n m : Node) where
  -- Between two machines with connections from grpc.Dial, whose calls are delivered: when the active one
  -- promotes the other, passive here and with all members reachable there, the promotion is reported as
  -- done, the own member is passive and the other machine's own member active; no other status, no list
  -- and no configuration changes on either.
  pub promote_member-roles :
      (b : ℕ)
      → IsProposal q v w n l m.hostname
      → IsAtHome v m b
      → IsHandedOver w l (promote_member env m.hostname w)
        × IsActivated v b (replay q (promote_member env m.hostname w).1.trace)
  unfolding receive
  promote_member-roles b i home =
      let reply =
        serve-promote_replied q.env d.peer q.address i.sender m b v i.known i.named home in
      let (over, at) =
        promote_member-IsHandedOver env q d v w l m.hostname (Reply.replied true "") reply (λ e. cc)
          n i in
      (
        over,
        subst (IsActivated v b) (sym at) (
            serve-promote q.env q.address i.sender m b v i.known home.local i.named home.linked.free
              home.found (find-hostname v.heap m.hostname v.members b home.found)),
      )
