-- ===== src/Startup/Roles.antt =====
-- With which role the daemon comes up.
use pulseha.Base.{
  ℕ, String, List, [], ◌∷◌, true, false, none, some, ◌≡◌, ◌≢◌, refl, ap, ◌∙◌, arith, inl, inr,
  Option-cases, Bool-cases, All, In, ◌==◌, first,
}
use pulseha.Exec.{Outcome, returned}
use pulseha.Config.{Config, Node, get_local_node, cluster_check, node_count}
use pulseha.World.{
  World, Env, Member, Status, Trace, update, spawned, monitor_received_hcs, process_hcs,
}
use pulseha.Member.{set_status, set_last_hc_response, inform_all, plugins_of, is_general}
use pulseha.MemberList.{find_in, match_active, is_active, get_active_member, load_members}
use pulseha.MemberList.Names.{IsListed, load_members-IsLoaded}
use pulseha.MemberList.Names.Idle.{AllDown, load_members-AllDown}
use pulseha.Failover.Election.{get_member_by_hostname_lem}
use pulseha.Failover.Stage.{local_In, find_same}
use pulseha.Startup.{setup_members, come_up}

-- How a node comes up in a cluster of several.
pub record IsComeUp (env : Env) (w : World) (n : Node) (r : Outcome (Unit {0}) × World)
    : Type 0 where
  pub ended : r.0 ≡ returned tt
  pub own : ℕ
  pub found : find_in n.hostname r.1 ≡ some own
  pub passive : (r.1.heap own).status ≡ Status.passive
  pub others : All (λ q. q ≢ own → (r.1.heap q).status ≡ Status.unavailable) r.1.members
  pub nobody : (get_active_member r.1).1 ≡ none
  pub config : r.1.config ≡ w.config
  -- the watch on the active node is started, with the clock as the last health check
  pub before : Trace
  pub watched : r.1.trace ≡ spawned (monitor_received_hcs own) ∷ before

pub clustered_local :
    (c : Config) (n : Node) → get_local_node c ≡ (n, none) → cluster_check c ≡ true
unfolding get_local_node
clustered_local c n local = elim (Bool-cases (cluster_check c)) [
  | inl joined ↦ joined
  | inr alone ↦ absurd (ground (arith, alone, local))
]

pub first-inactive :
    (h : ℕ → Member) (ps : List ℕ)
    → All (λ p. is_active (h p).status ≡ false) ps
    → first (match_active h) ps ≡ none
first-inactive h [] down = refl
first-inactive h (p ∷ ps) down = ground (arith, down.0, first-inactive h ps down.1)

-- A heap in which only the status and the clock of `p` are new, and passive.
module _ (h : ℕ → Member) (p t : ℕ) where
  abbrev risen : ℕ → Member
  risen =
      update (update h p (λ m. record m { last_hc_response = t })) p
        (λ m. record m { status = Status.passive })

  others_down :
      (ps : List ℕ)
      → All (λ q. (h q).status ≡ Status.unavailable) ps
      → All (λ q. q ≢ p → (risen q).status ≡ Status.unavailable) ps
  others_down [] down = tt
  others_down (q ∷ ps) down = ((λ apart. ground arith), others_down ps down.1)

  none_active :
      (ps : List ℕ)
      → All (λ q. (h q).status ≡ Status.unavailable) ps
      → All (λ q. is_active (risen q).status ≡ false) ps
  none_active [] down = tt
  none_active (q ∷ ps) down = (ground (arith, down.0), none_active ps down.1)

  same_names : (q : ℕ) → (risen q).hostname ≡ (h q).hostname
  same_names q = ground arith

module _ (env : Env) (n : Node) (named : n.hostname ≢ "") where
  nobody_active :
      (w : World) (p t : ℕ)
      → AllDown w
      → (get_active_member (record w { heap = risen w.heap p t })).1 ≡ none
  unfolding get_active_member
  nobody_active w p t down =
      rw (first-inactive (risen w.heap p t) w.members (none_active w.heap p t w.members down)) refl

  -- On a loaded list.
  come_up-IsComeUp :
      (w : World) (p : ℕ)
      → w.locked ≡ false
      → AllDown w
      → find_in n.hostname w ≡ some p
      → IsComeUp env w n (come_up env n w)
  unfolding come_up set_status set_last_hc_response get_active_member
  come_up-IsComeUp w p free down found =
      let now = env.now w.trace in
      rw (get_member_by_hostname_lem env n.hostname w named free, found)
        (record {
          ended = refl;
          own = p;
          found =
              find_same (risen w.heap p now) w.heap n.hostname w.members (same_names w.heap p now)
              ∙ found;
          passive = ground arith;
          others = others_down w.heap p now w.members down;
          nobody = nobody_active w p now down;
          config = refl;
          before = inform_all (plugins_of is_general w.modules) w.trace;
          watched = refl;
        })

  -- The local node has a member once the list is loaded.
  pub local_found :
      (w u : World)
      → get_local_node w.config ≡ (n, none)
      → ((e : String × Node) → In e w.config.nodes.entries → find_in e.1.hostname u ≢ none)
      → (p : ℕ) × (find_in n.hostname u ≡ some p)
  local_found w u local all = elim (Option-cases (find_in n.hostname u)) [
    | inl missing ↦
        let (e, m, same) = local_In w.config n local in
        absurd (all e m (ap (λ k. find_in k.hostname u) same ∙ missing))
    | inr present ↦ present
  ]

  -- A node that is not alone in its cluster, starting with a well-formed list in which nobody is
  -- available, comes up passive: Setup returns, the own member is passive and watched, all others are
  -- unavailable, nobody counts as active, and the configuration is as before.
  pub setup_members-IsComeUp :
      (w : World)
      → IsListed w
      → AllDown w
      → get_local_node w.config ≡ (n, none)
      → (node_count w.config == 1) ≡ false
      → IsComeUp env w n (setup_members env w)
  unfolding setup_members
  setup_members-IsComeUp w v down local several =
      let (ok, g) = load_members-IsLoaded w v in
      let u = (load_members w).1 in
      let (p, found) = local_found w u local g.all_found in
      let idle = load_members-AllDown w v down in
      let up =
        come_up-IsComeUp (record u { trace = spawned process_hcs ∷ u.trace }) p g.listed.unlocked
          idle found in
      rw
        (
          ok,
          ap get_local_node g.config_kept ∙ local,
          ap cluster_check g.config_kept ∙ clustered_local w.config n local,
          ap node_count g.config_kept,
          several,
        )
        (record {
          ended = up.ended;
          own = up.own;
          found = up.found;
          passive = up.passive;
          others = up.others;
          nobody = up.nobody;
          config = up.config ∙ g.config_kept;
          before = up.before;
          watched = up.watched;
        })
