-- ===== src/HealthCheck/Marking.antt =====
-- Whom a round of MonitorClientConns in src/pulseha/member_list.go marks.
use mathlib.Core.Path.{subst}
use pulseha.Base.{
  ℕ, String, List, [], ◌∷◌, Bool, true, false, none, str_eq, eq_iff, ◌≡◌, ◌≢◌, ◌⊎◌, inl, inr, refl,
  sym, ap, ◌∙◌, arith, ◌==◌, ==_iff, ◌&&◌, Bool-cases, In, Empty,
}
use pulseha.Exec.{returned, ◌>>=◌}
use pulseha.Exec.Keeps.{bind-returned}
use pulseha.World.{World, Env, Daemon, Status, ConnState, Trace, connected, dial_failed}
use pulseha.Member.{set_status, connect}
use pulseha.Member.Frame.{Frame-refl, connect-Frame}
use pulseha.Member.Sending.{CanDial, AllReachable, Connected, connect-Total, connect_dialled}
use pulseha.MemberList.{is_passive}
use pulseha.Failover.Watch.{IsWatcher, get_local_member_lem}
use pulseha.HealthCheck.{mark, after_connect, conns_loop, monitor_local, monitor_conns}
use pulseha.HealthCheck.Connections.{Marked, is_down, IsMonitored, monitor_conns-IsMonitored}

-- The member `q` has the status of its connection, unless that was idle.
abbrev pub Settled : Env → ℕ → World → Type 0
Settled env q s =
    ((t : Trace) × (env.conn_state t q ≡ ConnState.idle)) ⊎ Marked env q (s.heap q).status

-- Within a round that began at `w`: the members of `D` are settled.
record Round (env : Env) (w : World) (D : ℕ → Type 0) (s : World) : Type 0 where
  reachable : AllReachable w.members s
  hostname : (q : ℕ) → (s.heap q).hostname ≡ (w.heap q).hostname
  settled : (q : ℕ) → D q → Settled env q s

abbrev Or : (ℕ → Type 0) → ℕ → ℕ → Type 0
Or D p q = D q ⊎ (q ≡ p)

second : (a b : Bool) → a && b ≡ true → b ≡ true
second a b e = ground arith

module _ (env : Env) (w : World) where
  Round-widen :
      (D E : ℕ → Type 0) (s : World) → ((q : ℕ) → E q → D q) → Round env w D s → Round env w E s
  Round-widen D E s into r = record {
    reachable = r.reachable;
    hostname = r.hostname;
    settled = λ q e. r.settled q (into q e);
  }

  set_status-Round :
      (D : ℕ → Type 0) (p : ℕ) (x : Status) (s : World)
      → Marked env p x
      → Round env w D s
      → Round env w (Or D p) (set_status p x s).1
  unfolding set_status
  set_status-Round D p x s new r = record {
    reachable = λ q m.
        let old = r.reachable q m in
        record { link = old.link; present = ground (arith, old.present); usable = old.usable };
    hostname = λ q. ground (arith, r.hostname q);
    settled = λ q d. elim (Bool-cases (p == q)) [
      | inl same ↦ rw same (inr (subst (λ n. Marked env n x) ((==_iff p q).0 same) new))
      | inr apart ↦
          rw apart
            (elim d [ inl old ↦ r.settled q old | inr here ↦ absurd (ground (arith, apart, here)) ])
    ];
  }

  mark-Round :
      (D : ℕ → Type 0) (p : ℕ) (c : ConnState) (t : Trace) (s : World)
      → env.conn_state t p ≡ c
      → Round env w D s
      → ((mark env p c s).0 ≡ returned tt) × Round env w (Or D p) (mark env p c s).1
  unfolding mark set_status
  mark-Round D p ConnState.idle t s e r = (
    refl,
    record {
      reachable = r.reachable;
      hostname = r.hostname;
      settled = λ q d. elim d [
        | inl old ↦ r.settled q old
        | inr here ↦ inl (t, ap (env.conn_state t) here ∙ e)
      ];
    },
  )
  mark-Round D p ConnState.ready t s e r =
      (refl, set_status-Round D p Status.passive s (inl (refl, t, e)) r)
  mark-Round D p ConnState.connecting t s e r =
      (refl, set_status-Round D p Status.unavailable s (inr (refl, t, ap is_down e)) r)
  mark-Round D p ConnState.transient_failure t s e r =
      (refl, set_status-Round D p Status.unavailable s (inr (refl, t, ap is_down e)) r)
  mark-Round D p ConnState.shutdown t s e r =
      (refl, set_status-Round D p Status.unavailable s (inr (refl, t, ap is_down e)) r)

  module _ (comes_up : (t : Trace) (p : ℕ) (ip port : String) → env.dial t p ip port ≡ connected)
      (own : String) where
    -- One member: connected and marked.
    visit-Round :
        (D : ℕ → Type 0) (p : ℕ) (rest : Daemon Bool) (s : World)
        → In p w.members
        → Round env w D s
        → (u : World) × Round env w (Or D p) u
          × ((connect env p >>= after_connect env p rest) s ≡ rest u)
    unfolding after_connect
    visit-Round D p rest s m r =
        let dials : CanDial env = λ t q ip port e h.
          let clash : connected ≡ dial_failed e = sym (comes_up t q ip port) ∙ h in cc in
        let ret = connect_dialled env p s (r.reachable p m) (λ t ip port. comes_up t p ip port) in
        let (x, ret', post) = connect-Total env dials w.members p m s r.reachable in
        let clean : x ≡ none = cc in
        let (all, (c, (present, there))) =
          subst (λ e. Connected w.members p e (connect env p s).1) clean post in
        let t = (connect env p s).1 in
        let f = connect-Frame env s p s (Frame-refl s) in
        let r' : Round env w D t = record {
          reachable = all;
          hostname = λ q. (f.each q).hostname ∙ r.hostname q;
          settled = λ q d. rw (f.each q).status (r.settled q d);
        } in
        let up : c.connection ≡ true = second c.requester c.connection there in
        let (done, marked) = mark-Round D p (env.conn_state t.trace p) t.trace t refl r' in
        (
          (mark env p (env.conn_state t.trace p) t).1,
          marked,
          bind-returned (connect env p) (after_connect env p rest) s none ret
              ∙ rw (present, up)
                  (bind-returned (mark env p (env.conn_state t.trace p)) (λ _. rest) t tt done),
        )

    -- The members that the loop over `ps` is to settle.
    abbrev Due : (ℕ → Type 0) → List ℕ → ℕ → Type 0
    Due D ps q = D q ⊎ (In q ps × ((w.heap q).hostname ≢ own))

    conns_loop-Round :
        (ps : List ℕ)
        → ((q : ℕ) → In q ps → In q w.members)
        → (D : ℕ → Type 0) (s : World) → Round env w D s
        → ((conns_loop env own ps s).0 ≡ returned false)
          × Round env w (Due D ps) (conns_loop env own ps s).1
    unfolding conns_loop
    conns_loop-Round [] sub D s r = (
      refl,
      Round-widen D (Due D []) s
          (λ q d. elim d [ inl old ↦ old | inr (nowhere, other) ↦ elim nowhere [ ] ]) r,
    )
    conns_loop-Round (p ∷ ps) sub D s r = elim (Bool-cases (str_eq (s.heap p).hostname own)) [
      | inl same ↦
          let named : (w.heap p).hostname ≡ own =
            sym (r.hostname p) ∙ (eq_iff (s.heap p).hostname own).0 same in
          let (ret, done) = conns_loop-Round ps (λ q m. sub q (inr m)) D s r in
          rw same (
            ret,
            Round-widen (Due D ps) (Due D (p ∷ ps)) _
                (λ q d. elim d [
                  | inl old ↦ inl old
                  | inr (inl here, other) ↦
                      absurd (other (ap (λ n. (w.heap n).hostname) here ∙ named))
                  | inr (inr later, other) ↦ inr (later, other)
                ])
                done,
          )
      | inr differs ↦
          let (u, visited, run) = visit-Round D p (conns_loop env own ps) s (sub p (inl refl)) r in
          let (ret, done) = conns_loop-Round ps (λ q m. sub q (inr m)) (Or D p) u visited in
          rw (differs, run)
            (
              ret,
              Round-widen (Due (Or D p) ps) (Due D (p ∷ ps)) _
                  (λ q d. elim d [
                    | inl old ↦ inl (inl old)
                    | inr (inl here, other) ↦ inl (inr here)
                    | inr (inr later, other) ↦ inr (later, other)
                  ])
                  done,
            )
    ]

-- In a cluster with the list free, every member with a usable client, and connections from grpc.Dial: a round
-- of MonitorClientConns of a node whose member is not passive goes on, and leaves every member `q` of another
-- hostname passive, where its connection was ready, or unavailable, where it was neither ready nor idle,
-- unless the connection was idle. It changes no hostname, list or configuration, no status of a member of the
-- local hostname, and no other status but so.
pub monitor_conns-Settled :
    (env : Env) (w : World) (l : ℕ)
    → IsWatcher w l
    → is_passive (w.heap l).status ≡ false
    → ((t : Trace) (p : ℕ) (ip port : String) → env.dial t p ip port ≡ connected)
    → AllReachable w.members w
    → (q : ℕ) → In q w.members
    → (w.heap q).hostname ≢ (w.heap l).hostname
    → ((monitor_conns env w).0 ≡ returned false)
      × Settled env q (monitor_conns env w).1
      × IsMonitored env (w.heap l).hostname w (monitor_conns env w).1
unfolding monitor_conns monitor_local
monitor_conns-Settled env w l i awake comes_up all q m other =
    let start : Round env w (λ _. Empty) w = record {
      reachable = all;
      hostname = λ p. refl;
      settled = λ p none_yet. elim none_yet [ ];
    } in
    let (ret, done) =
      conns_loop-Round env w comes_up (w.heap l).hostname w.members (λ p k. k) (λ _. Empty) w
        start in
    let run : monitor_conns env w ≡ conns_loop env (w.heap l).hostname w.members w =
      rw (i.clustered, get_local_member_lem env w l i, awake) refl in
    (
      ap (λ r. r.0) run ∙ ret,
      rw run (done.settled q (inr (m, other))),
      monitor_conns-IsMonitored env w l i awake,
    )
