-- ===== src/Member/Traffic.antt =====
-- Sending messages to members: every property that a new client, a released or taken mutex and the
-- events of one request keep.
use pulseha.Base.{
  ℕ, String, List, [], ◌∷◌, Bool, true, false, not, ◌||◌, ◌&&◌, Option, none, some, str_eq,
  Option-cases, Bool-cases, inl, inr,
}
use pulseha.Exec.{deref}
use pulseha.Exec.Keeps.{Keeps, bind-Keeps}
use pulseha.Config.{Error}
use pulseha.World.{
  World, Env, Client, Dial, connected, certs_failed, dial_failed, Request, LogLevel, store,
  with_lock, log_event, dialled, sent,
}
use pulseha.Member.{
  connect, finish_dial, send, send_to, broadcast_to, broadcast_loop, broadcast, log, is_shutdown,
}

module _ (env : Env) (Inv : World → Type 0)
    (client_keeps : (p : ℕ) (c : Option Client) (s : World)
      → Inv s
      → Inv (store p (λ m. record m { client = c }) s))
    (dialled_keeps : (p : ℕ) (ip port : String) (s : World)
      → Inv s
      → Inv (log_event (dialled p ip port) s)) where
  finish_dial-Keeps : (p : ℕ) (c : Client) (d : Dial) → Keeps Inv (finish_dial env p c d)
  unfolding finish_dial
  finish_dial-Keeps p c connected s i = client_keeps p _ s i
  finish_dial-Keeps p c (certs_failed e) s i = i
  finish_dial-Keeps p c (dial_failed e) s i = client_keeps p _ s i

  deref-Keeps : (p : ℕ) → Keeps Inv (λ s. deref (s.heap p).client s)
  deref-Keeps p s i = elim (Option-cases (s.heap p).client) [ inl n ↦ rw n i | inr (c, n) ↦ rw n i ]

  pub connect-Keeps : (p : ℕ) → Keeps Inv (connect env p)
  unfolding connect
  connect-Keeps p =
      bind-Keeps Inv (λ s. deref (s.heap p).client s) _ (deref-Keeps p)
        λ c s i. elim (Bool-cases (not c.connection || is_shutdown (env.conn_state s.trace p))) [
          | inl down ↦ rw down (finish_dial-Keeps p c _ _ (dialled_keeps p _ _ s i))
          | inr up ↦ rw up i
        ]

  module _ (r : Request) (sent_keeps : (q : ℕ) (s : World) → Inv s → Inv (log_event (sent q r) s))
      (locked_keeps : (b : Bool) (s : World) → Inv s → Inv (record s { locked = b })) where
    pub send-Keeps : (p : ℕ) → Keeps Inv (send env p r)
    unfolding send
    send-Keeps p =
        bind-Keeps Inv (λ s. deref (s.heap p).client s) _ (deref-Keeps p)
          λ c s i. elim (Bool-cases (c.requester && c.connection)) [
            | inl there ↦ rw there (sent_keeps p s i)
            | inr missing ↦ rw missing i
          ]

    send_to-Keeps : (p : ℕ) (e : Error) → Keeps Inv (send_to env p r e)
    unfolding send_to
    send_to-Keeps p (some e) s i = i
    send_to-Keeps p none s i = bind-Keeps Inv (send env p r) _ (send-Keeps p) (λ e t g. g) s i

    broadcast_to-Keeps : (p : ℕ) (h : Option String) → Keeps Inv (broadcast_to env r p h)
    unfolding broadcast_to
    broadcast_to-Keeps p none s i = i
    broadcast_to-Keeps p (some host) s i = elim (Bool-cases (str_eq (s.heap p).hostname host)) [
      | inl own ↦ rw own i
      | inr other ↦
          rw other (
            bind-Keeps Inv (connect env p) (send_to env p r) (connect-Keeps p) (send_to-Keeps p) s
              i)
    ]

    pub broadcast_loop-Keeps : (ps : List ℕ) → Keeps Inv (broadcast_loop env r ps)
    unfolding broadcast_loop
    broadcast_loop-Keeps [] s i = i
    broadcast_loop-Keeps (p ∷ ps) s i =
        bind-Keeps Inv (broadcast_to env r p (env.hostname s.trace)) _
          (broadcast_to-Keeps p (env.hostname s.trace))
          (λ es. bind-Keeps Inv (broadcast_loop env r ps) _ (broadcast_loop-Keeps ps) (λ _ t g. g))
          s i

    pub broadcast-Keeps : Keeps Inv (broadcast env r)
    unfolding broadcast with_lock
    broadcast-Keeps s i = elim (Bool-cases s.locked) [
      | inl held ↦ rw held (locked_keeps true s i)
      | inr free ↦ rw free (
          locked_keeps false _
            (broadcast_loop-Keeps s.members (record s { locked = true }) (locked_keeps true s i)))
    ]

  -- The messages of the log.
  pub log-Keeps :
      (l : LogLevel) (m : String)
      → ((q : ℕ) (s : World) → Inv s → Inv (log_event (sent q (Request.logs l m)) s))
      → ((b : Bool) (s : World) → Inv s → Inv (record s { locked = b }))
      → Keeps Inv (log env l m)
  unfolding log
  log-Keeps l m sent_keeps locked_keeps =
      bind-Keeps Inv (broadcast env (Request.logs l m)) _
        (broadcast-Keeps (Request.logs l m) sent_keeps locked_keeps) (λ _ t g. g)
