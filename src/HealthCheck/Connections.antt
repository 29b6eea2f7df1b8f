-- ===== src/HealthCheck/Connections.antt =====
-- What the routines do to statuses.
use mathlib.Core.Path.{subst}
use pulseha.Base.{
  ℕ, String, List, [], ◌∷◌, Bool, true, false, none, some, str_eq, eq_iff, ◌≡◌, ◌≢◌, ◌⊎◌, inl, inr,
  refl, ◌∙◌, arith, ◌==◌, ==_iff, ap, Bool-cases, Option-cases,
}
use pulseha.Exec.{panicked}
use pulseha.Exec.Keeps.{Keeps, bind-Keeps}
use pulseha.Config.{Error}
use pulseha.World.{World, Env, Daemon, Status, ConnState, Client, MemberlistMember, LogLevel, Trace}
use pulseha.Member.{set_status, connect, log, close, set_hc_busy}
use pulseha.Member.Frame.{Frame, Frame-refl, connect-Frame, log-Frame}
use pulseha.MemberList.{is_passive}
use pulseha.Failover.Watch.{IsWatcher, get_local_member_lem}
use pulseha.HealthCheck.{
  mark, after_connect, conns_loop, monitor_local, monitor_conns, routine_hc, hang_up,
}

-- The connection is not up.
abbrev pub is_down : ConnState → Bool
is_down ConnState.idle = false
is_down ConnState.ready = false
is_down ConnState.connecting = true
is_down ConnState.transient_failure = true
is_down ConnState.shutdown = true

-- The member `q` gets the status of its connection: passive where that was ready, unavailable where it was
-- neither ready nor idle.
abbrev pub Marked : Env → ℕ → Status → Type 0
Marked env q x =
    ((x ≡ Status.passive) × (t : Trace) × (env.conn_state t q ≡ ConnState.ready))
    ⊎ ((x ≡ Status.unavailable) × (t : Trace) × (is_down (env.conn_state t q) ≡ true))

-- Members keep their hostnames, and a member not named `own` may get the status of its connection.
pub record IsMonitored (env : Env) (own : String) (w w' : World) : Type 0 where
  pub hostname : (q : ℕ) → (w'.heap q).hostname ≡ (w.heap q).hostname
  pub own_status : (q : ℕ) → (w.heap q).hostname ≡ own → (w'.heap q).status ≡ (w.heap q).status
  pub status : (q : ℕ) → ((w'.heap q).status ≡ (w.heap q).status) ⊎ Marked env q (w'.heap q).status
  pub config : w'.config ≡ w.config
  pub members : w'.members ≡ w.members

module _ (env : Env) (own : String) (w : World) where
  IsMonitored-refl : IsMonitored env own w w
  IsMonitored-refl = record {
    hostname = λ q. refl;
    own_status = λ q h. refl;
    status = λ q. inl refl;
    config = refl;
    members = refl;
  }

  Frame-IsMonitored : (s t : World) → IsMonitored env own w s → Frame s t → IsMonitored env own w t
  Frame-IsMonitored s t m f = record {
    hostname = λ q. (f.each q).hostname ∙ m.hostname q;
    own_status = λ q h. (f.each q).status ∙ m.own_status q h;
    status = λ q. rw (f.each q).status (m.status q);
    config = f.config ∙ m.config;
    members = f.members ∙ m.members;
  }

  -- A new status for a member of another name.
  set_status-IsMonitored :
      (p : ℕ) (new : Status) (s : World)
      → IsMonitored env own w s
      → (w.heap p).hostname ≢ own
      → Marked env p new
      → IsMonitored env own w (set_status p new s).1
  unfolding set_status
  set_status-IsMonitored p new s m other is_new = record {
    hostname = λ q. ground (arith, m.hostname q);
    own_status = λ q h. elim (Bool-cases (p == q)) [
      | inl same ↦ absurd (other (ap (λ r. (w.heap r).hostname) ((==_iff p q).0 same) ∙ h))
      | inr apart ↦ rw apart (m.own_status q h)
    ];
    status = λ q. elim (Bool-cases (p == q)) [
      | inl same ↦ inr (rw same (subst (λ r. Marked env r new) ((==_iff p q).0 same) is_new))
      | inr apart ↦ rw apart (m.status q)
    ];
    config = m.config;
    members = m.members;
  }

  mark-IsMonitored :
      (p : ℕ) (c : ConnState) (t : Trace) (s : World)
      → env.conn_state t p ≡ c
      → IsMonitored env own w s
      → (w.heap p).hostname ≢ own
      → IsMonitored env own w (mark env p c s).1
  unfolding mark
  mark-IsMonitored p ConnState.idle t s e m other = m
  mark-IsMonitored p ConnState.ready t s e m other =
      set_status-IsMonitored p _ s m other (inl (refl, t, e))
  mark-IsMonitored p ConnState.connecting t s e m other =
      set_status-IsMonitored p _ s m other (inr (refl, t, ap is_down e))
  mark-IsMonitored p ConnState.transient_failure t s e m other =
      set_status-IsMonitored p _ s m other (inr (refl, t, ap is_down e))
  mark-IsMonitored p ConnState.shutdown t s e m other =
      set_status-IsMonitored p _ s m other (inr (refl, t, ap is_down e))

  after_connect-IsMonitored :
      (p : ℕ) (rest : Daemon Bool) (e : Error)
      → (w.heap p).hostname ≢ own
      → Keeps (IsMonitored env own w) rest
      → Keeps (IsMonitored env own w) (after_connect env p rest e)
  unfolding after_connect
  after_connect-IsMonitored p rest (some e) other k =
      bind-Keeps (IsMonitored env own w) (log env LogLevel.error e) _
        (λ s m. Frame-IsMonitored s _ m (log-Frame env s LogLevel.error e s (Frame-refl s)))
        (λ _ t m. m)
  after_connect-IsMonitored p rest none other k = λ s m. elim (Option-cases (s.heap p).client) [
    | inl gone ↦ rw gone m
    | inr (c, there) ↦ elim (Bool-cases c.connection) [
      | inl up ↦
          rw (there, up)
            (bind-Keeps (IsMonitored env own w) (mark env p (env.conn_state s.trace p)) _
              (λ t n. mark-IsMonitored p _ s.trace t refl n other) (λ _. k) s m)
      | inr down ↦ rw (there, down) m
    ]
  ]

  conns_loop-IsMonitored : (ps : List ℕ) → Keeps (IsMonitored env own w) (conns_loop env own ps)
  unfolding conns_loop
  conns_loop-IsMonitored [] s m = m
  conns_loop-IsMonitored (p ∷ ps) s m = elim (Bool-cases (str_eq (s.heap p).hostname own)) [
    | inl same ↦ rw same (conns_loop-IsMonitored ps s m)
    | inr differs ↦
        let other : (w.heap p).hostname ≢ own =
          λ e. absurd (ground (arith, differs, eq_iff (s.heap p).hostname own, m.hostname p, e)) in
        rw differs (
          bind-Keeps (IsMonitored env own w) (connect env p)
            (after_connect env p (conns_loop env own ps))
            (λ t n. Frame-IsMonitored t _ n (connect-Frame env t p t (Frame-refl t)))
            (λ e.
              after_connect-IsMonitored p (conns_loop env own ps) e other
                (conns_loop-IsMonitored ps))
            s m)
  ]

-- In a cluster with the list free and the local member at `l`, not passive, a round of
-- MonitorClientConns changes no hostname, no list and no configuration, not the status of a member of
-- the local hostname, and that of another at most to passive, where its connection was ready, or to
-- unavailable, where it was neither ready nor idle.
pub monitor_conns-IsMonitored :
    (env : Env) (w : World) (l : ℕ)
    → IsWatcher w l
    → is_passive (w.heap l).status ≡ false
    → IsMonitored env (w.heap l).hostname w (monitor_conns env w).1
unfolding monitor_conns monitor_local
monitor_conns-IsMonitored env w l i awake =
    rw (i.clustered, get_local_member_lem env w l i, awake)
      (conns_loop-IsMonitored env (w.heap l).hostname w w.members w (IsMonitored-refl env _ w))

-- A health check to a member that was never connected to panics, and leaves the member marked
-- busy and unavailable.
pub routine_hc_panics :
    (env : Env) (w : World) (p : ℕ) (c : Client) (ms : List MemberlistMember)
    → (w.heap p).client ≡ some c
    → c.connection ≡ false
    → ((routine_hc env p ms w).0 ≡ panicked)
      × (((routine_hc env p ms w).1.heap p).hc_busy ≡ true)
      × (((routine_hc env p ms w).1.heap p).status ≡ Status.unavailable)
unfolding routine_hc hang_up close set_hc_busy set_status
routine_hc_panics env w p c ms there down =
    let same : p == p ≡ true = (==_iff p p).1 refl in
    rw (same, there, down, same, there, down, same) (refl, refl, refl)
