-- ===== src/World.antt =====
-- The state of one daemon and what surrounds it. `World` holds the database object (DB) of
-- src/pulseha/database.go, the member objects that pointers lead to, the config file, and the trace of
-- what the daemon did to its surroundings. `Env` answers for everything outside the repository.
use pulseha.Base.{ℕ, String, List, ◌∷◌, Bool, true, false, Option, none, ◌==◌, if◌then◌else◌}
use pulseha.Base.Int.{ℤ}
use pulseha.Config.{Config, Node, Error}
use pulseha.Exec.{Exec, blocked}

-- rpc MemberStatus.Status, in the order of its numbers
pub data Status : Type 0 where
  active leaving passive unavailable suspicious monitoring unconfigured : Status

-- grpc connectivity.State
pub data ConnState : Type 0 where
  idle connecting ready transient_failure shutdown : ConnState

-- client.Client: are Connection and Requester set?
pub record Client : Type 0 where
  pub connection : Bool
  pub requester : Bool

-- What becomes of Client.Connect: a connection, no usable certificates, or a refused grpc.Dial.
pub data Dial : Type 0 where
  connected : Dial
  certs_failed dial_failed : String → Dial

-- type Member; a time is the number of nanoseconds since Go's zero time
pub record Member : Type 0 where
  pub hostname : String
  pub status : Status
  pub last_hc_response : ℕ
  pub latency : String
  pub hc_busy : Bool
  pub score : ℤ
  pub client : Option Client

-- &Member{}
abbrev pub zero_member : Member
zero_member = record {
  hostname = "";
  status = active;
  last_hc_response = 0;
  latency = "";
  hc_busy = false;
  score = ℤ.pos 0;
  client = none;
}

-- rpc MemberlistMember
pub record MemberlistMember : Type 0 where
  pub hostname : String
  pub status : Status
  pub latency : String
  pub last_received : String
  pub score : ℤ

pub data LogLevel : Type 0 where
  debug info warning error : LogLevel

-- What Client.Send sends: a proto function with its data.
pub data Request : Type 0 where
  config_sync : Config → Request
  join : Node → String → String → Request
  leave : String → Request
  make_passive : String → Request
  bring_up_ip : String → List String → Request
  bring_down_ip : String → List String → Request
  health_check : List MemberlistMember → Request
  promote : String → Request
  logs : LogLevel → String → Request
  remove : String → Request

-- The methods that utils.Scheduler runs, and RoutineHC and Server.Setup, which run once. A number is a member.
pub data Routine : Type 0 where
  monitor_client_conns add_health_check_handler process_hcs server_setup : Routine
  monitor_received_hcs : ℕ → Routine
  routine_hc : ℕ → List MemberlistMember → Routine

pub data Event : Type 0 where
  dialled : ℕ → String → String → Event
  closed : ℕ → Event
  sent : ℕ → Request → Event
  ips_up ips_down : String → List String → Event
  spawned : Routine → Event
  informed_status informed_failover : String → Event
  file_written : Bool → Event
  -- a file of the certificates, with its path and content
  stored : String → String → Event
  folder_made folder_deleted : String → Event
  -- what a joining node asks a node of the cluster, and the end of that connection
  asked : String → Request → Event
  hung_up : String → Event
  server_stopped : Event
  -- a tick of Scheduler
  ticked : Event

pub data PluginType : Type 0 where
  health_check_plugin networking_plugin general_plugin : PluginType

-- type Plugin, with the plugin's weight
pub record Plugin : Type 0 where
  pub name : String
  pub plugin_type : PluginType
  pub weight : ℤ

-- The config file: none, one that json.Unmarshal refuses, and one that it decodes.
pub data Stored : Type 0 where
  absent garbled : Stored
  holds : Config → Stored

-- Newest first.
abbrev pub Trace : Type 0
Trace = List Event

pub record World : Type 0 where
  pub config : Config
  pub modules : List Plugin
  -- MemberList.Members: addresses of member objects
  pub members : List ℕ
  -- the mutex of the member list
  pub locked : Bool
  pub heap : ℕ → Member
  pub next : ℕ
  pub start_delay : Bool
  pub start_interval : ℕ
  -- the config file
  pub file : Stored
  pub trace : Trace

-- The surroundings: each answer depends on all that the daemon has done so far.
pub record Env : Type 0 where
  -- the output of the command `hostname`, without its newline
  pub hostname : Trace → Option String
  pub now : Trace → ℕ
  -- time.Format and time.Parse at RFC1123, which know the time zones
  pub format_time : ℕ → String
  pub parse_time : String → ℕ
  -- how long a health check took, as text
  pub round_trip : Trace → String
  pub can_write : Trace → Bool
  -- what a failed WriteFile of a configuration leaves of the config file
  pub torn_file : Trace → Config → Stored → Stored
  -- grpc.Dial to a member's address
  pub dial : Trace → ℕ → String → String → Dial
  pub conn_state : Trace → ℕ → ConnState
  -- the error with which a request to a member ends, if it does
  pub answers : Trace → ℕ → Request → Error
  pub health_score : Trace → ℕ → ℤ
  -- netlink
  pub interface_exist : Trace → String → Bool
  pub interface_names : Trace → List String
  -- the network plugin's BringUpIPs and BringDownIPs
  pub bring_up : Trace → String → List String → Error
  pub bring_down : Trace → String → List String → Error
  -- the order in which a second `range` over the nodes meets them
  pub reorder : Trace → List (String × Node) → List (String × Node)
  -- a health check plugin's Send
  pub check_health : Trace → Plugin → Bool

abbrev pub Daemon : Type 0 → Type 0
Daemon A = Exec World A

abbrev pub update : (ℕ → Member) → ℕ → (Member → Member) → ℕ → Member
update h p f q = if p == q then f (h q) else h q

-- Write a field of the member at an address.
abbrev pub store : ℕ → (Member → Member) → World → World
store p f w = record w { heap = update w.heap p f }

abbrev pub log_event : Event → World → World
log_event e w = record w { trace = e ∷ w.trace }

-- Lock with a deferred Unlock, for the mutex of the member list: it is not reentrant.
abbrev unlock {ℓ} : {A : Type ℓ} → A × World → A × World
unlock (r, w) = (r, record w { locked = false })

unfoldable pub with_lock : {A : Type 0} → Daemon A → Daemon A
with_lock m w =
    let after = unlock (m (record w { locked = true })) in if w.locked then (blocked, w) else after
