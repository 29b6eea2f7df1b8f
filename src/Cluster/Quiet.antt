-- ===== src/Cluster/Quiet.antt =====
-- What the other machine takes no notice of.
use pulseha.Base.{ℕ, String, List, [], ◌∷◌, none, ◌≡◌, refl, ◌==◌, Bool-cases, inl, inr}
use pulseha.Exec.Keeps.{Keeps}
use pulseha.Config.{get_node_hostname_by_address}
use pulseha.World.{World, Env, Plugin, LogLevel, Request, Trace, sent, log_event}
use pulseha.Member.{log, connect, inform_all}
use pulseha.Member.Traffic.{log-Keeps, connect-Keeps}
use pulseha.Network.{make_local_passive}
use pulseha.Network.Frame.{make_local_passive-Keeps}
use pulseha.Failover.{inform_failover}
use pulseha.Server.{Call, handle}
use pulseha.Server.Guard.{serve_known}
use pulseha.Cluster.{Peer, call_of, receive, replay}

pub replay-inform_all :
    (q : Peer) (ps : List Plugin) (t : Trace) → replay q (inform_all ps t) ≡ replay q t
unfolding inform_all replay
replay-inform_all q [] t = refl
replay-inform_all q (p ∷ ps) t = replay-inform_all q ps _

pub replay-inform_failover :
    (q : Peer) (ps : List Plugin) (t : Trace) → replay q (inform_failover ps t) ≡ replay q t
unfolding inform_failover replay
replay-inform_failover q [] t = refl
replay-inform_failover q (p ∷ ps) t = replay-inform_failover q ps _

module _ (env : Env) (q : Peer) (v : World) where
  -- The other machine is in the state `v`.
  abbrev pub At : World → Type 0
  At s = replay q s.trace ≡ v

  pub connect-At : (p : ℕ) → Keeps At (connect env p)
  unfolding replay
  connect-At = connect-Keeps env At (λ p c s i. i) (λ p ip port s i. i)

  -- The address of this machine is that of a node of the other's configuration.
  module _ (sender : String)
      (known : get_node_hostname_by_address v.config q.address ≡ (sender, none)) where
    logs-At :
        (l : LogLevel) (m : String) (p : ℕ) (s : World)
        → At s
        → At (log_event (sent p (Request.logs l m)) s)
    unfolding replay receive call_of handle
    logs-At l m p s i = elim (Bool-cases (p == q.member)) [
      | inl it ↦ rw (it, i, serve_known q.env q.address sender (Call.logs l m) v known) refl
      | inr other ↦ rw other i
    ]

    pub log-At : (l : LogLevel) (m : String) → Keeps At (log env l m)
    unfolding replay
    log-At l m = log-Keeps env At (λ p c s i. i) (λ p ip port s i. i) l m (logs-At l m) (λ b s i. i)

    pub make_local_passive-At : Keeps At (make_local_passive env)
    unfolding replay
    make_local_passive-At =
        make_local_passive-Keeps env At (λ iface ips s i. i) (λ iface ips s i. i) log-At
