-- ===== src/Startup/Alone.antt =====
-- A node that is alone in its cluster becomes active when it starts.
use mathlib.Core.Path.{subst}
use pulseha.Base.{
  ℕ, List, [], ◌∷◌, false, none, some, ◌≡◌, ◌≢◌, refl, sym, ap, ◌∙◌, inl, inr, Bool-cases, All, In,
  is_some,
}
use pulseha.Exec.Keeps.{continue-Keeps}
use pulseha.Config.{Node, get_local_node, cluster_check, node_count}
use pulseha.World.{World, Env, Member, Status, spawned, process_hcs}
use pulseha.MemberList.{find_in, is_active, get_active_member, load_members}
use pulseha.MemberList.Names.{IsListed, load_members-IsLoaded}
use pulseha.MemberList.Names.Idle.{AllDown, load_members-AllDown}
use pulseha.Failover.{promote_member, make_active}
use pulseha.Failover.Election.{get_member_by_hostname_lem}
use pulseha.Failover.Stage.{find-hostname}
use pulseha.Failover.Takeover.{IsActivated, make_active-IsActivated}
use pulseha.Cluster.Handover.{find-In}
use pulseha.Startup.{setup_members}
use pulseha.Startup.Roles.{first-inactive, clustered_local, local_found}

All-In : (P : ℕ → Type 0) (ps : List ℕ) (p : ℕ) → All P ps → In p ps → P p
All-In P [] p all m = elim m [ ]
All-In P (x ∷ ps) p all (inl same) = subst P (sym same) all.0
All-In P (x ∷ ps) p all (inr m) = All-In P ps p all.1 m

inactive :
    (h : ℕ → Member) (ps : List ℕ)
    → All (λ p. (h p).status ≡ Status.unavailable) ps
    → All (λ p. is_active (h p).status ≡ false) ps
inactive h [] down = tt
inactive h (p ∷ ps) down = (ap is_active down.0, inactive h ps down.1)

nobody_active : (w : World) → AllDown w → (get_active_member w).1 ≡ none
unfolding get_active_member
nobody_active w down = rw (first-inactive w.heap w.members (inactive w.heap w.members down)) refl

module _ (env : Env) (n : Node) (named : n.hostname ≢ "") where
  promote_alone :
      (w : World) (p : ℕ)
      → w.locked ≡ false
      → AllDown w
      → find_in n.hostname w ≡ some p
      → get_local_node w.config ≡ (n, none)
      → node_count w.config ≡ 1
      → IsActivated w p (promote_member env n.hostname w).1
  unfolding promote_member
  promote_alone w p free down found local alone =
      let status =
        All-In (λ q. (w.heap q).status ≡ Status.unavailable) w.members p down
          (find-In w.heap n.hostname w.members p found) in
      rw
        (
          get_member_by_hostname_lem env n.hostname w named free,
          found,
          status,
          alone,
          nobody_active w down,
        )
        (continue-Keeps (IsActivated w p) _ (make_active env p w)
          (make_active-IsActivated env w p n local
            (find-hostname w.heap n.hostname w.members p found))
          (λ e s a. elim (Bool-cases (is_some e)) [
            | inl failed ↦ rw failed a
            | inr fine ↦ rw fine a
          ]))

  -- A node that is alone in its cluster, starting with a well-formed list in which nobody is available,
  -- makes the member of its own hostname active, with the clock of health checks reset; what else LoadMembers
  -- left of statuses, list and configuration stays.
  pub setup_members-active :
      (w : World)
      → IsListed w
      → AllDown w
      → get_local_node w.config ≡ (n, none)
      → node_count w.config ≡ 1
      → (p : ℕ) × (find_in n.hostname (load_members w).1 ≡ some p)
        × IsActivated (load_members w).1 p (setup_members env w).1
  unfolding setup_members
  setup_members-active w v down local alone =
      let (ok, g) = load_members-IsLoaded w v in
      let u = (load_members w).1 in
      let (p, found) = local_found env n named w u local g.all_found in
      let s = record u { trace = spawned process_hcs ∷ u.trace; start_delay = false } in
      let here = ap get_local_node g.config_kept ∙ local in
      let one = ap node_count g.config_kept ∙ alone in
      let a = promote_alone s p g.listed.unlocked (load_members-AllDown w v down) found here one in
      let kept : IsActivated u p (promote_member env n.hostname s).1 = record {
        status = a.status;
        no_response = a.no_response;
        others = a.others;
        config = a.config;
        members = a.members;
      } in
      rw (ok, here, ap cluster_check g.config_kept ∙ clustered_local w.config n local, one)
        (
          p,
          found,
          continue-Keeps (IsActivated u p) _ (promote_member env n.hostname s) kept (λ e r k. k),
        )
