-- ===== src/Startup/Restart.antt =====
-- What the daemon does on a signal.
use pulseha.Base.{[], ◌∷◌, true, false, none, ◌≡◌, ◌≢◌, ◌⊎◌, inl, inr, refl, ap, ◌∙◌, ◌==◌}
use pulseha.Exec.{returned, exited, for_each}
use pulseha.Config.{Config, Node, get_local_node, cluster_check, node_count, validate}
use pulseha.ConfigFile.{load, decode}
use pulseha.ConfigFile.Saving.{load_stored}
use pulseha.World.{World, Env, Trace, with_lock, holds, spawned, server_setup, server_stopped}
use pulseha.Member.Frame.{Frame, Frame-refl}
use pulseha.Member.Sending.{IsLinked, CanDial}
use pulseha.MemberList.{reset}
use pulseha.MemberList.Names.{IsListed}
use pulseha.Network.{make_local_passive}
use pulseha.Network.Frame.{make_local_passive-Frame}
use pulseha.Network.Raising.{make_local_passive-Total}
use pulseha.Server.{shutdown}
use pulseha.Startup.{Signal, Hooks, on_signal, setup_members}
use pulseha.Startup.Roles.{IsComeUp, setup_members-IsComeUp}

abbrev pub no_hooks : Hooks
no_hooks before s = []

-- The state after Shutdown in a cluster.
abbrev pub stopped : Env → World → World
stopped env w =
    let s = (make_local_passive env w).1 in
    record s { members = []; locked = false; trace = server_stopped ∷ s.trace }

-- The state after SIGUSR2, with `c` in the config file.
abbrev pub reloaded : Env → World → Config → World
reloaded env w c =
    let s = stopped env w in
    record s { config = decode w.config c; trace = spawned server_setup ∷ s.trace }

module _ (env : Env) (dials : CanDial env) (w : World) (i : IsLinked w)
    (clustered : cluster_check w.config ≡ true) where
  pub shutdown_lem : shutdown env w ≡ (returned tt, stopped env w)
  unfolding shutdown reset with_lock
  shutdown_lem =
      let (x, ret, j) = make_local_passive-Total env dials w i in rw (clustered, ret, j.free) refl

  -- In a cluster with all members reachable and connections from grpc.Dial, SIGINT and SIGTERM end the process with the addresses of the
  -- local node taken down, an empty member list and the server stopped.
  pub on_signal_ends :
      (s : Signal)
      → (s ≡ Signal.interrupt) ⊎ (s ≡ Signal.terminate)
      → on_signal env no_hooks s w ≡ (exited, stopped env w)
  unfolding on_signal for_each
  on_signal_ends s (inl e) = rw (e, shutdown_lem) refl
  on_signal_ends s (inr e) = rw (e, shutdown_lem) refl

  module _ (c : Config) (stored : w.file ≡ holds c)
      (valid : (t : Trace) → validate (env.hostname t) (decode w.config c) ≡ none) where
    frame : Frame w (make_local_passive env w).1
    frame = make_local_passive-Frame env w w (Frame-refl w)

    reload_lem :
        load env (stopped env w)
        ≡ (returned tt, record (stopped env w) { config = decode w.config c })
    reload_lem =
        let same : decode (stopped env w).config c ≡ decode w.config c =
          ap (λ (d : Config). decode d c) frame.config in
        load_stored env c (stopped env w) (frame.file ∙ stored)
          (ap (validate (env.hostname (stopped env w).trace)) same ∙ valid (stopped env w).trace)
        ∙ ap (λ (d : Config). (returned tt, record (stopped env w) { config = d })) same

    on_signal_reloads : on_signal env no_hooks Signal.user2 w ≡ (returned tt, (reloaded env w c))
    unfolding on_signal for_each
    on_signal_reloads = rw (shutdown_lem, reload_lem) refl

    reloaded-IsListed : IsListed (reloaded env w c)
    reloaded-IsListed = record { unlocked = refl; distinct = tt; allocated = tt; clients = tt }

    -- In a cluster with all members reachable, connections from grpc.Dial, no hooks, and a config file
    -- whose content, decoded over the configuration in memory, is valid: SIGUSR2 returns with that in
    -- memory and starts Server.Setup; and where it has a named local node in a cluster of several,
    -- MemberList.Setup then brings this node up passive.
    pub on_signal-IsComeUp :
        (n : Node)
        → get_local_node (decode w.config c) ≡ (n, none)
        → n.hostname ≢ ""
        → (node_count (decode w.config c) == 1) ≡ false
        → (on_signal env no_hooks Signal.user2 w ≡ (returned tt, (reloaded env w c)))
          × IsComeUp env
              (reloaded env w c)
              n
              (setup_members env (on_signal env no_hooks Signal.user2 w).1)
    on_signal-IsComeUp n local named several = (
      on_signal_reloads,
      rw on_signal_reloads (
          setup_members-IsComeUp env n named (reloaded env w c) reloaded-IsListed tt local several),
    )
