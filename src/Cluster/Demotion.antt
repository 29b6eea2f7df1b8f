-- ===== src/Cluster/Demotion.antt =====
-- The active machine steps down: MakePassive on its own member.
use pulseha.Base.{ℕ, String, none, eq_refl, ◌≡◌, ◌≢◌, refl, ap, ◌∙◌, arith, Bool-cases, inl, inr}
use pulseha.Exec.{returned}
use pulseha.Config.{Node, get_local_node, get_node_hostname_by_address}
use pulseha.World.{World, Env, Member, Status, Trace, store}
use pulseha.Member.{set_status, set_last_hc_response}
use pulseha.Member.Frame.{Frame, Frame-refl}
use pulseha.Member.Sending.{IsLinked, CanDial}
use pulseha.MemberList.{is_passive}
use pulseha.Network.{make_local_passive}
use pulseha.Network.Frame.{make_local_passive-Frame}
use pulseha.Network.Raising.{make_local_passive-Total}
use pulseha.Failover.{make_passive}
use pulseha.Cluster.{Peer, replay}
use pulseha.Cluster.Quiet.{make_local_passive-At, replay-inform_all}

-- The state while the member `l` steps down: the other machine is still in the state `v`.
pub record Stepping (q : Peer) (v w : World) (l : ℕ) (s : World) : Type 0 where
  pub config : s.config ≡ w.config
  pub members : s.members ≡ w.members
  pub linked : IsLinked s
  pub hostnames : (x : ℕ) → (s.heap x).hostname ≡ (w.heap x).hostname
  pub others : (x : ℕ) → x ≢ l → (s.heap x).status ≡ (w.heap x).status
  pub unaware : replay q s.trace ≡ v

module _ (env : Env) (q : Peer) (v w : World) (l : ℕ) where
  pub Stepping-Frame :
      (s t : World)
      → Stepping q v w l s
      → Frame s t
      → IsLinked t
      → replay q t.trace ≡ v
      → Stepping q v w l t
  Stepping-Frame s t g f i a = record {
    config = f.config ∙ g.config;
    members = f.members ∙ g.members;
    linked = i;
    hostnames = λ x. (f.each x).hostname ∙ g.hostnames x;
    others = λ x apart. (f.each x).status ∙ g.others x apart;
    unaware = a;
  }

  -- A field of the member `l` is set that is neither its hostname nor its client.
  pub Stepping-store :
      (f : Member → Member) (s : World)
      → ((m : Member) → ((f m).hostname ≡ m.hostname) × ((f m).client ≡ m.client))
      → Stepping q v w l s
      → Stepping q v w l (store l f s)
  Stepping-store f s same g = record {
    config = g.config;
    members = g.members;
    linked = record {
      free = g.linked.free;
      reachable = λ x m.
          let old = g.linked.reachable x m in
          record {
            link = old.link;
            present = ground (arith, same (s.heap x), old.present);
            usable = old.usable;
          };
    };
    hostnames = λ x. ground (arith, same (s.heap x), g.hostnames x);
    others = λ x apart. ground (arith, g.others x apart);
    unaware = g.unaware;
  }

  pub Stepping-trace :
      (s : World) (t : Trace)
      → replay q t ≡ replay q s.trace
      → Stepping q v w l s
      → Stepping q v w l (record s { trace = t })
  Stepping-trace s t same g = record {
    config = g.config;
    members = g.members;
    linked = record { free = g.linked.free; reachable = g.linked.reachable };
    hostnames = g.hostnames;
    others = g.others;
    unaware = same ∙ g.unaware;
  }

  pub set_status-Stepping :
      (x : Status) (s : World) → Stepping q v w l s → Stepping q v w l (set_status l x s).1
  unfolding set_status
  set_status-Stepping x s g =
      Stepping-trace (store l (λ m. record m { status = x }) s) _ (replay-inform_all q _ s.trace)
        (Stepping-store (λ m. record m { status = x }) s (λ m. (refl, refl)) g)

  module _ (dials : CanDial env) (sender : String)
      (known : get_node_hostname_by_address v.config q.address ≡ (sender, none)) where
    make_local_passive-Stepping :
        (s : World)
        → Stepping q v w l s
        → ((make_local_passive env s).0 ≡ returned tt)
          × Stepping q v w l (make_local_passive env s).1
    make_local_passive-Stepping s g =
        let (x, ret, i) = make_local_passive-Total env dials s g.linked in
        (
          ret,
          Stepping-Frame s _ g (make_local_passive-Frame env s s (Frame-refl s)) i
              (make_local_passive-At env q v sender known s g.unaware),
        )

    pub make_passive-Stepping :
        (n : Node) (s : World)
        → get_local_node w.config ≡ (n, none)
        → (w.heap l).hostname ≡ n.hostname
        → Stepping q v w l s
        → ((make_passive env l s).0 ≡ returned none) × Stepping q v w l (make_passive env l s).1
    unfolding make_passive set_last_hc_response set_status replay
    make_passive-Stepping n s local own g =
        let (ret, h) = make_local_passive-Stepping s g in
        let t = (make_local_passive env s).1 in
        let u = store l (λ m. record m { last_hc_response = env.now t.trace }) t in
        let clocked : Stepping q v w l u =
          Stepping-store (λ m. record m { last_hc_response = env.now t.trace }) t
            (λ m. (refl, refl)) h in
        rw (ap get_local_node g.config ∙ local, g.hostnames l ∙ own, eq_refl n.hostname, ret)
          (elim (Bool-cases (is_passive (u.heap l).status)) [
            | inl already ↦ rw already (refl, clocked)
            | inr fresh ↦
                rw fresh
                  (refl, Stepping-trace _ _ refl (set_status-Stepping Status.passive _ clocked))
          ])
