-- ===== src/Startup.antt =====
-- Starting and stopping the daemon: Server.Init, Setup of src/pulseha/server.go, MemberList.Setup of
-- src/pulseha/member_list.go, and the signals of cmd/pulseha/main.go.
pub mod Roles
pub mod Alone
pub mod Restart
use pulseha.Base.{
  ℕ, String, List, [], ◌∷◌, ◌++◌, Bool, true, false, not, ◌&&◌, Option, none, some, ◌==◌,
  if◌then◌else◌, is_some, concat,
}
use pulseha.Exec.{Exec, pure, panic, exit, gets, modify, skip, deref, for_each, ◌>>=◌, ◌>>◌}
use pulseha.Config.{Config, Node, Error, cluster_check, get_local_node, node_count, local_node}
use pulseha.ConfigFile.{load}
use pulseha.Nodes.{node_exists_by_hostname}
use pulseha.Groups.{Net}
use pulseha.Endpoints.{format_ipv6}
use pulseha.World.{
  World, Env, Daemon, Status, Trace, log_event, spawned, process_hcs, monitor_received_hcs,
  server_setup,
}
use pulseha.Member.{set_status, set_last_hc_response}
use pulseha.MemberList.{load_members, get_member_by_hostname}
use pulseha.Failover.{promote_member}
use pulseha.Plugins.{SharedObject, setup_plugins, Loaded}
use pulseha.Server.{shutdown}

-- What listening needs of the machine: net.Listen on an address, and the certificates that are loaded.
pub record Machine : Type 0 where
  pub listen : Trace → String → Error
  pub load_key_pair : Trace → Error
  pub read_ca : Trace → Error
  pub append_certs : Trace → Bool
  -- log.ParseLevel, and opening the log file
  pub parse_level : String → Bool
  pub open_log : Trace → String → Bool

-- How Server.Setup goes on: it serves until the server is stopped, or has returned at once.
pub data Setting : Type 0 where
  unconfigured nameless serving : Setting

-- The signals that main knows, and the hooks for each, before and after it is handled.
pub data Signal : Type 0 where
  hangup user1 user2 interrupt terminate stop : Signal
  other_signal : ℕ → Signal

abbrev pub Hooks : Type 0
Hooks = Bool → Signal → List (Daemon Unit)

module _ (env : Env) where
  come_up : Node → Daemon Unit
  come_up n = do
    found ← get_member_by_hostname env n.hostname
    p ← deref found
    now ← gets (λ w. env.now w.trace)
    set_last_hc_response p now
    set_status p Status.passive
    modify (log_event (spawned (monitor_received_hcs p)))

  start_alone : Node → Daemon Unit
  start_alone n = do
    modify (λ w. record w { start_delay = false })
    promote_member env n.hostname
    skip

  start_checks : Node → Daemon Unit
  unfolding come_up start_alone
  start_checks n = do
    modify (log_event (spawned process_hcs))
    count ← gets (λ w. node_count w.config)
    if count == 1 then start_alone n else come_up n

  setup_local : Node × Error → Daemon Unit
  unfolding start_checks
  setup_local (n, some e) = exit
  setup_local (n, none) = do
    clustered ← gets (λ w. cluster_check w.config)
    if clustered then start_checks n else skip

  -- MemberList.Setup
  unfoldable pub setup_members : Daemon Unit
  unfolding setup_local
  setup_members = do load_members; l ← gets (λ w. get_local_node w.config); setup_local l

  module _ (net : Net) (machine : Machine) where
    -- log.Fatal ends the process.
    or_fatal : Bool → Daemon Unit
    or_fatal true = exit
    or_fatal false = skip

    setup_on : Option String → Daemon Setting
    unfolding or_fatal
    setup_on none = pure Setting.nameless
    setup_on (some host) = do
      known ← gets (λ w. node_exists_by_hostname w.config host)
      or_fatal (not known)
      n ← gets (λ w. local_node (some host) w.config)
      busy ← gets (λ w. machine.listen w.trace (concat (format_ipv6 net n.ip ∷ ":" ∷ n.port ∷ [])))
      or_fatal (is_some busy)
      keyless ← gets (λ w. machine.load_key_pair w.trace)
      or_fatal (is_some keyless)
      unread ← gets (λ w. machine.read_ca w.trace)
      or_fatal (is_some unread)
      appended ← gets (λ w. machine.append_certs w.trace)
      or_fatal (not appended)
      modify (λ w. record w { start_delay = true })
      setup_members
      pure Setting.serving

    -- Server.Setup, up to Serve
    unfoldable pub setup : Daemon Setting
    unfolding setup_on
    setup = do
      clustered ← gets (λ w. cluster_check w.config)
      host ← gets (λ w. env.hostname w.trace)
      if not clustered then pure Setting.unconfigured else setup_on host

    -- Server.Init, for the shared objects that open
    unfoldable pub init : List SharedObject → Daemon Setting
    init objects = do
      modify (λ w. record w {
        modules = (setup_plugins objects (record { modules = w.modules; running = [] })).modules;
      })
      setup

    -- main before it starts the servers: config.New, setLogLevel, which panics, and the log file
    unfoldable pub boot : Daemon Unit
    unfolding or_fatal
    boot = do
      load env
      known ← gets (λ w. machine.parse_level w.config.pulse.logging_level)
      if known then skip else panic
      unopened ← gets (λ w.
          w.config.pulse.log_to_file
          && not (machine.open_log w.trace w.config.pulse.log_file_location))
      or_fatal unopened

  run_hooks : List (Daemon Unit) → Daemon Unit
  run_hooks hooks = for_each hooks (λ h. h)

  react : Signal → Daemon Unit
  react Signal.user2 = do shutdown env; load env; modify (log_event (spawned server_setup))
  react Signal.interrupt = do shutdown env; exit
  react Signal.terminate = do shutdown env; exit
  react _ = skip

  -- A round of handleSignals
  unfoldable pub on_signal : Hooks → Signal → Daemon Unit
  unfolding run_hooks react
  on_signal hooks s = do run_hooks (hooks true s); react s; run_hooks (hooks false s)
