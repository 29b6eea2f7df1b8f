-- ===== src/Member/Sending.antt =====
-- When sending to the cluster returns.
use mathlib.Core.Path.{subst}
use pulseha.Base.{
  ℕ, String, List, [], ◌∷◌, Bool, true, false, not, ◌||◌, ◌&&◌, ◌≢◌, Option, none, some, str_eq,
  ◌≡◌, ◌⊎◌, refl, arith, Bool-cases, inl, inr, In, ◌==◌,
}
use pulseha.Member.Frame.{Frame-refl, broadcast_loop-Frame}
use pulseha.Exec.{returned}
use pulseha.Exec.Total.{Total, bind-Total}
use pulseha.Config.{Error}
use pulseha.World.{
  World, Env, Trace, Member, Client, Dial, connected, certs_failed, dial_failed, Request, LogLevel,
  store, with_lock,
}
use pulseha.Member.{
  connect, finish_dial, send, send_to, broadcast_to, broadcast_loop, broadcast, log, is_shutdown,
}

-- Package grpc: Dial, which does not wait for the machine to answer, gives a connection.
abbrev pub CanDial : Env → Type 0
CanDial env = (t : Trace) (p : ℕ) (ip port e : String) → env.dial t p ip port ≢ dial_failed e

-- A member can be sent to: it has a client, and where there is a connection there is a requester.
pub record IsReachable (m : Member) : Type 0 where
  pub link : Client
  pub present : m.client ≡ some link
  pub usable : (link.connection ≡ false) ⊎ (link.requester ≡ true)

module _ (ps : List ℕ) where
  abbrev pub AllReachable : World → Type 0
  AllReachable s = (q : ℕ) → In q ps → IsReachable (s.heap q)

  -- After Connect: without an error the requester is there.
  abbrev pub Connected : ℕ → Error → World → Type 0
  Connected p (some e) s = AllReachable s
  Connected p none s =
      AllReachable s
      × ((c : Client) × (((s.heap p).client ≡ some c) × (c.requester && c.connection ≡ true)))

module _ (env : Env) (dials : CanDial env) (ps : List ℕ) where
  relink :
      (p : ℕ) (c : Client) (s : World)
      → (c.connection ≡ false) ⊎ (c.requester ≡ true)
      → AllReachable ps s
      → AllReachable ps (store p (λ m. record m { client = some c }) s)
  relink p c s usable all q m = elim (Bool-cases (p == q)) [
    | inl same ↦ record { link = c; present = ground (arith, same); usable = usable }
    | inr other ↦
        let old = all q m in
        record {
          link = old.link;
          present = ground (arith, other, old.present);
          usable = old.usable;
        }
  ]

  finish_dial-Total :
      (p : ℕ) (c : Client) (d : Dial)
      → ((e : String) → d ≢ dial_failed e)
      → Total (AllReachable ps) (Connected ps p) (finish_dial env p c d)
  unfolding finish_dial
  finish_dial-Total p c connected gives s all = (
    none,
    refl,
    (
      relink p (record { connection = true; requester = true }) s (inr refl) all,
      (record { connection = true; requester = true }, (ground arith, refl)),
    ),
  )
  finish_dial-Total p c (certs_failed e) gives s all = (some e, refl, all)
  finish_dial-Total p c (dial_failed e) gives s all = absurd (gives e refl)

  pub connect-Total : (p : ℕ) → In p ps → Total (AllReachable ps) (Connected ps p) (connect env p)
  unfolding connect
  connect-Total p m s all =
      let here = all p m in
      let c = here.link in
      rw (here.present)
        (elim (Bool-cases (not c.connection || is_shutdown (env.conn_state s.trace p))) [
          | inl down ↦ rw down (finish_dial-Total p c _ (dials s.trace p _ _) _ all)
          | inr up ↦ rw up (none, refl, (all, (c, (here.present, ready c _ here.usable up))))
        ])
    where
      ready :
          (c : Client) (b : Bool)
          → (c.connection ≡ false) ⊎ (c.requester ≡ true)
          → not c.connection || b ≡ false
          → c.requester && c.connection ≡ true
      ready c b (inl down) up = ground (arith, down, up)
      ready c b (inr there) up = ground (arith, there, up)

  send_to-Total :
      (p : ℕ) (r : Request) (e : Error)
      → Total (Connected ps p e) (λ _. AllReachable ps) (send_to env p r e)
  unfolding send_to send
  send_to-Total p r (some e) s all = (e ∷ [], refl, all)
  send_to-Total p r none s (all, (c, (present, there))) = rw (present, there) (_, refl, all)

  broadcast_to-Total :
      (r : Request) (p : ℕ) (h : Option String)
      → In p ps
      → Total (AllReachable ps) (λ _. AllReachable ps) (broadcast_to env r p h)
  unfolding broadcast_to
  broadcast_to-Total r p none m s all = (_, refl, all)
  broadcast_to-Total r p (some host) m s all = elim (Bool-cases (str_eq (s.heap p).hostname host)) [
    | inl own ↦ rw own ([], refl, all)
    | inr other ↦ rw other (
        bind-Total (AllReachable ps) (Connected ps p) (λ _. AllReachable ps) (connect env p)
          (send_to env p r) (connect-Total p m) (send_to-Total p r) s all)
  ]

  broadcast_loop-Total :
      (r : Request) (qs : List ℕ)
      → ((q : ℕ) → In q qs → In q ps)
      → Total (AllReachable ps) (λ _. AllReachable ps) (broadcast_loop env r qs)
  unfolding broadcast_loop
  broadcast_loop-Total r [] sub s all = ([], refl, all)
  broadcast_loop-Total r (p ∷ qs) sub s all =
      bind-Total (AllReachable ps) (λ _. AllReachable ps) (λ _. AllReachable ps)
        (broadcast_to env r p (env.hostname s.trace)) _
        (broadcast_to-Total r p (env.hostname s.trace) (sub p (inl refl)))
        (λ es.
          bind-Total (AllReachable ps) (λ _. AllReachable ps) (λ _. AllReachable ps)
            (broadcast_loop env r qs) _ (broadcast_loop-Total r qs (λ q m. sub q (inr m)))
            (λ rest t k. (_, refl, k)))
        s all

-- Connect where grpc.Dial gives a connection that comes up.
pub connect_dialled :
    (env : Env) (p : ℕ) (s : World)
    → IsReachable (s.heap p)
    → ((t : Trace) (ip port : String) → env.dial t p ip port ≡ connected)
    → (connect env p s).0 ≡ returned none
unfolding connect
connect_dialled env p s i dials =
    rw (i.present)
      (elim (Bool-cases (not i.link.connection || is_shutdown (env.conn_state s.trace p))) [
        | inl down ↦ rw (down, dials s.trace _ _) refl
        | inr up ↦ rw up refl
      ])

-- Nobody holds the list, and every member can be sent to.
pub record IsLinked (s : World) : Type 0 where
  pub free : s.locked ≡ false
  pub reachable : AllReachable s.members s

pub broadcast-Total :
    (env : Env) (dials : CanDial env) (r : Request)
    → Total IsLinked (λ _. IsLinked) (broadcast env r)
unfolding broadcast with_lock
broadcast-Total env dials r s i =
    let (x, ret, all) =
      broadcast_loop-Total env dials s.members r s.members (λ q m. m) (record s { locked = true })
        i.reachable in
    rw (i.free, ret)
      (
        x,
        refl,
        record {
          free = refl;
          reachable =
              of_members (broadcast_loop env r s.members (record s { locked = true })).1 s.members
                same all;
        },
      )
  where
    of_members :
        (t : World) (ps : List ℕ) → t.members ≡ ps → AllReachable ps t → AllReachable t.members t
    of_members t ps e all q m = all q (subst (λ ms. In q ms) e m)

    same : (broadcast_loop env r s.members (record s { locked = true })).1.members ≡ s.members
    same =
        (broadcast_loop-Frame env (record s { locked = true }) r s.members
          (record s { locked = true }) (Frame-refl _)).members

pub log-Total :
    (env : Env) (dials : CanDial env) (l : LogLevel) (m : String)
    → Total IsLinked (λ _. IsLinked) (log env l m)
unfolding log
log-Total env dials l m =
    bind-Total IsLinked (λ _. IsLinked) (λ _. IsLinked) (broadcast env (Request.logs l m)) _
      (broadcast-Total env dials (Request.logs l m)) (λ _ t g. (tt, refl, g))
