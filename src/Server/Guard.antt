-- ===== src/Server/Guard.antt =====
-- Which requests the daemon acts on.
use pulseha.Base.{
  ℕ, String, Bool, true, false, Option, none, some, str_eq, eq_iff, eq_refl, ◌≡◌, ◌≢◌, refl, arith,
  if◌then◌else◌,
}
use pulseha.Exec.{Outcome, returned, panicked, exited, blocked, pure, continue, ◌>>=◌}
use pulseha.Exec.Keeps.{Keeps, bind-Keeps, bind-never, continue-Keeps}
use pulseha.Config.{Config, Node, Error, get_local_node, get_node_hostname_by_address}
use pulseha.World.{World, Env, Daemon, LogLevel}
use pulseha.Member.{log}
use pulseha.Member.Frame.{Frame, Frame-refl, log-Frame}
use pulseha.MemberList.{find_in}
use pulseha.Failover.{make_active}
use pulseha.Failover.Election.{get_member_by_hostname_lem}
use pulseha.Failover.Takeover.{IsActivated, make_active-IsActivated, Frame-IsActivated}
use pulseha.Server.{
  Call, Reply, serve, handle, can_communicate, known_address, on_promote, on_local, promote_found,
  promoted,
}

-- A request whose address is not that of a node, or that has no address.
abbrev pub IsStranger : Config → Option String → Type 0
IsStranger c none = Unit
IsStranger c (some ip) = (get_node_hostname_by_address c ip).1 ≢ none

-- An action that only logs and then answers `b`.
module _ (env : Env) (w : World) where
  log-never :
      (m : String) (s : World)
      → ((log env LogLevel.warning m >>= λ _. pure false) s).0 ≢ returned true
  log-never m s = bind-never (log env LogLevel.warning m) (λ _. pure false) true s (λ _ t h. cc)

  log-false-Frame : (m : String) → Keeps (Frame w) (log env LogLevel.warning m >>= λ _. pure false)
  log-false-Frame m =
      bind-Keeps (Frame w) (log env LogLevel.warning m) _ (log-Frame env w LogLevel.warning m)
        (λ _ t h. h)

  known_address-never :
      (r : String × Error) → r.1 ≢ none → (known_address env r w).0 ≢ returned true
  unfolding known_address
  known_address-never (h, none) s = absurd (s refl)
  known_address-never (h, some e) s = log-never _ w

  known_address-Frame : (r : String × Error) → Frame w (known_address env r w).1
  unfolding known_address
  known_address-Frame (h, none) = Frame-refl w
  known_address-Frame (h, some e) = log-false-Frame _ w (Frame-refl w)

  can_communicate-never :
      (peer : Option String)
      → IsStranger w.config peer
      → (can_communicate env peer w).0 ≢ returned true
  unfolding can_communicate
  can_communicate-never none s = log-never _ w
  can_communicate-never (some ip) s =
      known_address-never (get_node_hostname_by_address w.config ip) s

  can_communicate-Frame : (peer : Option String) → Frame w (can_communicate env peer w).1
  unfolding can_communicate
  can_communicate-Frame none = log-false-Frame _ w (Frame-refl w)
  can_communicate-Frame (some ip) = known_address-Frame (get_node_hostname_by_address w.config ip)

-- What a request that is turned away leaves.
pub record IsTurnedAway (w : World) (r : Outcome Reply × World) : Type 0 where
  pub reply : (x : Reply) → r.0 ≡ returned x → x ≡ Reply.unauthorized
  pub frame : Frame w r.1

guarded-IsTurnedAway :
    (w : World) (m : Daemon Reply) (r : Outcome Bool × World)
    → r.0 ≢ returned true
    → Frame w r.1
    → IsTurnedAway w (continue (λ ok. if ok then m else pure Reply.unauthorized) r)
guarded-IsTurnedAway w m (returned true, s) never f = absurd (never refl)
guarded-IsTurnedAway w m (returned false, s) never f = record { reply = λ x h. cc; frame = f }
guarded-IsTurnedAway w m (panicked, s) never f = record { reply = λ x h. cc; frame = f }
guarded-IsTurnedAway w m (exited, s) never f = record { reply = λ x h. cc; frame = f }
guarded-IsTurnedAway w m (blocked, s) never f = record { reply = λ x h. cc; frame = f }

-- A request to one of the methods of Server that call CanCommunicate, from an address that is not that of a
-- node: the only answer that it can get is "unauthorized", and configuration, list, config file and every field of the members but their
-- connections are as before.
pub serve-IsTurnedAway :
    (env : Env) (peer : Option String) (call : Call) (w : World)
    → IsStranger w.config peer
    → IsTurnedAway w (serve env peer call w)
unfolding serve
serve-IsTurnedAway env peer call w s =
    guarded-IsTurnedAway w (handle env call) (can_communicate env peer w)
      (can_communicate-never env w peer s) (can_communicate-Frame env w peer)

promoted-IsActivated :
    (env : Env) (w : World) (p : ℕ) (h : String) (e : Error)
    → Keeps (IsActivated w p) (promoted env h e)
unfolding promoted
promoted-IsActivated env w p h (some e) s a = a
promoted-IsActivated env w p h none s a =
    bind-Keeps (IsActivated w p) (log env LogLevel.info _) _
      (λ s a. Frame-IsActivated w p s _ a (log-Frame env s LogLevel.info _ s (Frame-refl s)))
      (λ _ t a. a) s a

pub serve_known :
    (env : Env) (ip h : String) (call : Call) (w : World)
    → get_node_hostname_by_address w.config ip ≡ (h, none)
    → serve env (some ip) call w ≡ handle env call w
unfolding serve can_communicate known_address
serve_known env ip h call w known = rw known refl

-- With the list free, a request from a node's address to promote the local node, whose member `p` is
-- the first of its hostname, makes that member active and changes neither another member's status nor
-- the configuration.
pub serve-promote :
    (env : Env) (ip sender : String) (n : Node) (p : ℕ) (w : World)
    → get_node_hostname_by_address w.config ip ≡ (sender, none)
    → get_local_node w.config ≡ (n, none)
    → n.hostname ≢ ""
    → w.locked ≡ false
    → find_in n.hostname w ≡ some p
    → (w.heap p).hostname ≡ n.hostname
    → IsActivated w p (serve env (some ip) (Call.promote n.hostname) w).1
unfolding handle on_promote on_local promote_found
serve-promote env ip sender n p w known local named free found own =
    rw
      (
        serve_known env ip sender (Call.promote n.hostname) w known,
        local,
        eq_refl n.hostname,
        get_member_by_hostname_lem env n.hostname w named free,
        found,
      )
      (continue-Keeps (IsActivated w p) (promoted env n.hostname) (make_active env p w)
        (make_active-IsActivated env w p n local own) (promoted-IsActivated env w p n.hostname))

-- A request from a node's address to promote another node than the local one is refused and changes
-- nothing.
pub serve-promote_other :
    (env : Env) (ip sender h : String) (n : Node) (w : World)
    → get_node_hostname_by_address w.config ip ≡ (sender, none)
    → get_local_node w.config ≡ (n, none)
    → h ≢ n.hostname
    → serve env (some ip) (Call.promote h) w ≡ (returned (Reply.replied false ""), w)
unfolding handle on_promote on_local
serve-promote_other env ip sender h n w known local other =
    let apart : str_eq h n.hostname ≡ false = ground (arith, other, eq_iff h n.hostname) in
    rw (serve_known env ip sender (Call.promote h) w known, local, apart) refl
