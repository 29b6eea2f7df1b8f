-- ===== src/CliServer/Leaving.antt =====
-- What the commands need, and what leaving the cluster leaves.
use pulseha.Base.{
  String, [], true, false, none, some, ◌≡◌, ◌≢◌, refl, sym, ◌∙◌, ap, if◌then◌else◌, Bool-cases, inl,
  inr,
}
use pulseha.Exec.{Outcome, returned, skip}
use pulseha.Exec.Keeps.{Returns, bind-Returns, continue-Returns}
use pulseha.GoMap.{empty}
use pulseha.Config.{Config, Node, Error, cluster_check, node_count, get_local_node}
use pulseha.ConfigFile.{save}
use pulseha.ConfigFile.Saving.{save-IsSaving}
use pulseha.Groups.{Net, group_clear_local}
use pulseha.Nodes.{nodes_clear_local}
use pulseha.World.{World, Env, with_lock, Request}
use pulseha.MemberList.{reset}
use pulseha.Network.{make_local_passive}
use pulseha.Server.{shutdown}
use pulseha.CliServer.{
  Command, CliReply, cluster_required, run, perform, leave_as, tell_leaving, forget_cluster, left,
  left_saved, remove_certs,
}

-- Outside a cluster every command is refused and changes nothing.
pub run_outside :
    (env : Env) (net : Net) (c : Command) (w : World)
    → cluster_check w.config ≡ false
    → run env net c w ≡ (returned cluster_required, w)
unfolding run
run_outside env net c w lone = rw lone refl

-- No member, node or group is left.
pub record IsForgotten (w : World) : Type 0 where
  pub members : w.members ≡ []
  pub nodes : w.config.nodes ≡ empty
  pub groups : w.config.groups ≡ empty

abbrev Anything {ℓ} : {A : Type ℓ} → A → World → Type 0
Anything a w = Unit

blocked_never : (x : Unit {0}) → Outcome.blocked ≢ returned x
blocked_never x e = cc

reset-Returns : Returns (λ _ s. s.members ≡ []) reset
unfolding reset with_lock
reset-Returns s x e = elim (Bool-cases s.locked) [
  | inl held ↦ absurd (blocked_never x (rw held at e))
  | inr free ↦ rw free refl
]

shutdown-Returns : (env : Env) → Returns (λ _ s. s.members ≡ []) (shutdown env)
unfolding shutdown
shutdown-Returns env s =
    bind-Returns Anything (λ _ t. t.members ≡ [])
      (if cluster_check s.config then make_local_passive env else skip) _ (λ t a e. tt)
      (λ a t _.
        bind-Returns (λ _ u. u.members ≡ []) (λ _ u. u.members ≡ []) reset _ reset-Returns
          (λ b u h x e. h) t)
      s

-- The state once the daemon has forgotten its cluster.
forget_cluster-Returns :
    (env : Env) (net : Net) → Returns (λ _ s. IsForgotten s) (forget_cluster env net)
unfolding forget_cluster nodes_clear_local group_clear_local
forget_cluster-Returns env net =
    bind-Returns (λ _ s. s.members ≡ []) (λ _ s. IsForgotten s) (shutdown env) _
      (shutdown-Returns env) (λ a s h x e. record { members = h; nodes = refl; groups = refl })

save-IsForgotten : (env : Env) (s : World) → IsForgotten s → IsForgotten (save env s).1
save-IsForgotten env s f =
    let k = save-IsSaving env s in
    record {
      members = k.members ∙ f.members;
      nodes = ap (λ (c : Config). c.nodes) k.memory ∙ f.nodes;
      groups = ap (λ (c : Config). c.groups) k.memory ∙ f.groups;
    }

-- What a command that left the cluster answers and leaves.
pub record IsLeft (r : CliReply) (w : World) : Type 0 where
  pub forgotten : IsForgotten w
  pub reply : (m : String) → r ≡ CliReply.succeeded m → m ≡ "Successfully left from cluster"

message : CliReply → String
message (CliReply.succeeded m) = m
message (CliReply.failed code m) = m

left-reply :
    (env : Env) (net : Net) (e : Error) (s : World) (m : String)
    → IsForgotten s
    → left env net e (node_count s.config) ≡ CliReply.succeeded m
    → m ≡ "Successfully left from cluster"
unfolding left node_count message
left-reply env net (some e) s m f h = absurd cc
left-reply env net none s m f h = sym (ap message (rw f.nodes at h))

reply_of :
    (env : Env) (net : Net) (e : Error) (s : World) (r : CliReply)
    → Outcome.returned (left env net e (node_count s.config)) ≡ Outcome.returned r
    → left env net e (node_count s.config) ≡ r
reply_of env net e s r h = cc

left_saved-IsLeft :
    (env : Env) (net : Net) (e : Error) (s : World)
    → IsForgotten s
    → (r : CliReply) → (left_saved env net e s).0 ≡ returned r
    → IsLeft r (left_saved env net e s).1
unfolding left_saved remove_certs
left_saved-IsLeft env net (some e) s f r h = record {
  forgotten = f;
  reply = λ m q. left-reply env net (some e) s m f (reply_of env net (some e) s r h ∙ q);
}
left_saved-IsLeft env net none s f r h = record {
  forgotten = record { members = f.members; nodes = f.nodes; groups = f.groups };
  reply = λ m q. left-reply env net none s m f (reply_of env net none s r h ∙ q);
}

-- In a cluster whose local node is known, Leave, where it returns, has emptied the member list, the
-- nodes and the groups, and a success is never reported as "Successfully dismantled cluster".
pub leave-IsLeft :
    (env : Env) (net : Net) (n : Node) (w : World)
    → cluster_check w.config ≡ true
    → get_local_node w.config ≡ (n, none)
    → (r : CliReply) → (run env net Command.leave w).0 ≡ returned r
    → IsLeft r (run env net Command.leave w).1
unfolding run perform leave_as
leave-IsLeft env net n w clustered local =
    rw (clustered, local)
      (bind-Returns Anything IsLeft
        (tell_leaving env net (node_count w.config) (Request.leave n.hostname)) _ (λ s x e. tt)
        (λ a t _.
          bind-Returns (λ _ s. IsForgotten s) IsLeft (forget_cluster env net) _
            (forget_cluster-Returns env net)
            (λ b u f.
              continue-Returns (λ _ s. IsForgotten s) IsLeft _ (save env u)
                (λ e _. save-IsForgotten env u f)
                (λ e s g r h. left_saved-IsLeft env net e s g r h))
            t)
        w)
