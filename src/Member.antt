-- ===== src/Member.antt =====
-- src/pulseha/member.go, its setters and connection, with packages/client/client.go; the plugin calls of
-- src/pulseha/utils.go that a change of status makes; and packages/logging/logging.go over
-- MemberList.Broadcast. Debug messages are not sent (the level is fixed at INFO) and are left out.
pub mod Frame
pub mod Traffic
pub mod Sending
use pulseha.Base.{
  ℕ, String, List, [], ◌∷◌, ◌++◌, Bool, true, false, not, ◌&&◌, ◌||◌, Option, none, some, str_eq,
  ◌==◌, if◌then◌else◌, select, concat,
}
use pulseha.Base.Int.{ℤ}
use pulseha.Exec.{Exec, pure, panic, gets, deref, modify, skip, for_each, ◌>>=◌, ◌>>◌}
use pulseha.Config.{Config, Node, Error, find_by_hostname, no_node}
use pulseha.World.{
  World, Env, Daemon, Member, Client, Dial, connected, certs_failed, dial_failed, Status, ConnState,
  Event, Plugin, PluginType, Request, LogLevel, store, log_event, with_lock, dialled, closed, sent,
  informed_status, Trace,
}

abbrev pub is_general : PluginType → Bool
is_general PluginType.general_plugin = true
is_general _ = false

abbrev pub is_networking : PluginType → Bool
is_networking PluginType.networking_plugin = true
is_networking _ = false

abbrev pub is_health_check : PluginType → Bool
is_health_check PluginType.health_check_plugin = true
is_health_check _ = false

abbrev pub is_shutdown : ConnState → Bool
is_shutdown ConnState.shutdown = true
is_shutdown _ = false

-- GetGeneralPlugins and its kin
abbrev pub plugins_of : (PluginType → Bool) → List Plugin → List Plugin
plugins_of is_kind = select (λ p. is_kind p.plugin_type)

unfoldable pub inform_all : List Plugin → Trace → Trace
inform_all [] t = t
inform_all (p ∷ ps) t = inform_all ps (informed_status p.name ∷ t)

-- InformMLSChange
inform_mls_change : Daemon Unit
inform_mls_change =
    modify (λ w. record w { trace = inform_all (plugins_of is_general w.modules) w.trace })

unfoldable pub set_hostname : ℕ → String → Daemon Unit
set_hostname p h = modify (store p (λ m. record m { hostname = h }))

unfoldable pub set_status : ℕ → Status → Daemon Unit
unfolding inform_mls_change
set_status p s = do modify (store p (λ m. record m { status = s })); inform_mls_change

unfoldable pub set_score : ℕ → ℤ → Daemon Unit
set_score p z = modify (store p (λ m. record m { score = z }))

unfoldable pub set_latency : ℕ → String → Daemon Unit
set_latency p l = modify (store p (λ m. record m { latency = l }))

unfoldable pub set_last_hc_response : ℕ → ℕ → Daemon Unit
set_last_hc_response p t = modify (store p (λ m. record m { last_hc_response = t }))

unfoldable pub set_hc_busy : ℕ → Bool → Daemon Unit
set_hc_busy p b = modify (store p (λ m. record m { hc_busy = b }))

unfoldable pub set_client : ℕ → Client → Daemon Unit
set_client p c = modify (store p (λ m. record m { client = some c }))

-- nodeGetByHostname, whose error Connect ignores: an unknown hostname gives an empty node.
abbrev node_details : Option (String × Node) → Node
node_details (some (uid, n)) = n
node_details none = no_node

module _ (env : Env) where
  -- Client.Connect(ip, port, true): the error of grpc.Dial is lost, since `err` is declared again under
  -- `if tlsEnabled`, and the requester is made over a connection that is nil.
  finish_dial : ℕ → Client → Dial → Daemon Error
  finish_dial p c connected = do
    modify
        (store p (λ m. record m { client = some (record { connection = true; requester = true }) }))
    pure none
  finish_dial p c (certs_failed e) = pure (some e)
  finish_dial p c (dial_failed e) = do
    modify (
        store p (λ m. record m { client = some (record { connection = false; requester = true }) }))
    pure none

  dial_client : ℕ → Client → Node → Daemon Error
  unfolding finish_dial
  dial_client p c n = do
    answer ← gets (λ w. env.dial w.trace p n.ip n.port)
    modify (log_event (dialled p n.ip n.port))
    finish_dial p c answer

  -- Member.Connect
  unfoldable pub connect : ℕ → Daemon Error
  unfolding dial_client
  connect p = do
    c ← (λ w. deref (w.heap p).client w)
    down ← gets (λ w. not c.connection || is_shutdown (env.conn_state w.trace p))
    details ← gets (λ w. node_details (find_by_hostname (w.heap p).hostname w.config.nodes.entries))
    if down then dial_client p c details else pure none

  -- Member.Send: with no requester the call goes through a nil interface, and with no connection the
  -- requester follows a nil pointer.
  unfoldable pub send : ℕ → Request → Daemon Error
  send p r = do
    c ← (λ w. deref (w.heap p).client w)
    answer ← gets (λ w. env.answers w.trace p r)
    if c.requester && c.connection then (do modify (log_event (sent p r)); pure answer) else panic

  -- Member.Close
  unfoldable pub close : ℕ → Daemon Unit
  close p = do
    c ← (λ w. deref (w.heap p).client w)
    if c.connection then modify (log_event (closed p)) else skip

  -- One round of Broadcast's loop: the errors that it appends.
  or_error : Error → List String
  or_error none = []
  or_error (some e) = e ∷ []

  send_to : ℕ → Request → Error → Daemon (List String)
  unfolding send or_error
  send_to p r (some e) = pure (e ∷ [])
  send_to p r none = do e ← send p r; pure (or_error e)

  broadcast_to : Request → ℕ → Option String → Daemon (List String)
  unfolding connect send_to
  broadcast_to r p none = pure ("unable to broadcast as unable to get local hostname" ∷ [])
  broadcast_to r p (some host) = do
    own ← gets (λ w. str_eq (w.heap p).hostname host)
    if own then pure [] else (do e ← connect p; send_to p r e)

  pub broadcast_loop : Request → List ℕ → Daemon (List String)
  unfolding broadcast_to
  broadcast_loop r [] = pure []
  broadcast_loop r (p ∷ ps) = do
    host ← gets (λ w. env.hostname w.trace)
    es ← broadcast_to r p host
    rest ← broadcast_loop r ps
    pure (es ++ rest)

  -- MemberList.Broadcast
  unfoldable pub broadcast : Request → Daemon (List String)
  unfolding broadcast_loop
  broadcast r = with_lock (λ w. broadcast_loop r w.members w)

  -- Logging.Warn, Info and Error
  unfoldable pub log : LogLevel → String → Daemon Unit
  unfolding broadcast
  log level message = do broadcast (Request.logs level message); skip
