-- ===== src/Failover/Takeover.antt =====
-- The change of role of the local member, and the watch that a passive node keeps on the active one.
use pulseha.Base.{ℕ, none, eq_refl, ◌≡◌, ◌≢◌, refl, ◌∙◌, arith}
use pulseha.Exec.Keeps.{Keeps, bind-Keeps}
use pulseha.Config.{Node, get_local_node}
use pulseha.World.{World, Env, Status, Trace}
use pulseha.Member.{set_status, set_latency, set_last_hc_response}
use pulseha.Member.Frame.{Frame, Frame-refl}
use pulseha.Network.{make_local_active}
use pulseha.Network.Frame.{make_local_active-Frame}
use pulseha.Failover.{spawn, make_active, become_active, activate}

-- What MakeActive does on the local member at `p`: the state `w'` that it leaves.
pub record IsActivated (w : World) (p : ℕ) (w' : World) : Type 0 where
  pub status : (w'.heap p).status ≡ Status.active
  pub no_response : (w'.heap p).last_hc_response ≡ 0
  pub others : (q : ℕ) → q ≢ p → (w'.heap q).status ≡ (w.heap q).status
  pub config : w'.config ≡ w.config
  pub members : w'.members ≡ w.members

-- The state once the member's fields are set.
abbrev pub raised : World → ℕ → World
raised w p = (set_status p Status.active (set_last_hc_response p 0 (set_latency p "" w).1).1).1

raised-IsActivated : (w : World) (p : ℕ) → IsActivated w p (raised w p)
unfolding set_status set_latency set_last_hc_response
raised-IsActivated w p = record {
  status = ground arith;
  no_response = ground arith;
  others = λ q apart. ground arith;
  config = refl;
  members = refl;
}

pub Frame-IsActivated :
    (w : World) (p : ℕ) (s t : World) → IsActivated w p s → Frame s t → IsActivated w p t
Frame-IsActivated w p s t a f = record {
  status = (f.each p).status ∙ a.status;
  no_response = (f.each p).last_hc_response ∙ a.no_response;
  others = λ q apart. (f.each q).status ∙ a.others q apart;
  config = f.config ∙ a.config;
  members = f.members ∙ a.members;
}

logged-IsActivated :
    (w : World) (p : ℕ) (s : World) (t : Trace)
    → IsActivated w p s
    → IsActivated w p (record s { trace = t })
logged-IsActivated w p s t a = record {
  status = a.status;
  no_response = a.no_response;
  others = a.others;
  config = a.config;
  members = a.members;
}

make_local_active-IsActivated :
    (env : Env) (w : World) (p : ℕ) → Keeps (IsActivated w p) (make_local_active env)
make_local_active-IsActivated env w p s a =
    Frame-IsActivated w p s _ a (make_local_active-Frame env s s (Frame-refl s))

become_active-IsActivated :
    (env : Env) (w : World) (p : ℕ) → IsActivated w p (become_active env p w).1
unfolding become_active set_status set_latency set_last_hc_response spawn
become_active-IsActivated env w p =
    bind-Keeps (IsActivated w p) (make_local_active env) _ (make_local_active-IsActivated env w p)
      (λ _ s a. logged-IsActivated w p s _ a) (raised w p) (raised-IsActivated w p)

informed-IsActivated :
    (w : World) (t : Trace) (p : ℕ) (s : World)
    → IsActivated (record w { trace = t }) p s
    → IsActivated w p s
informed-IsActivated w t p s a = record {
  status = a.status;
  no_response = a.no_response;
  others = a.others;
  config = a.config;
  members = a.members;
}

-- Where the local node is known, MakeActive on a member of its hostname makes it active with its clock
-- of health checks reset, and changes neither the status of another member nor the configuration, even
-- where it panics on the way.
pub make_active-IsActivated :
    (env : Env) (w : World) (p : ℕ) (n : Node)
    → get_local_node w.config ≡ (n, none)
    → (w.heap p).hostname ≡ n.hostname
    → IsActivated w p (make_active env p w).1
unfolding make_active activate
make_active-IsActivated env w p n local own =
    rw (local, own, eq_refl n.hostname)
      (informed-IsActivated w _ p _ (become_active-IsActivated env _ p))
