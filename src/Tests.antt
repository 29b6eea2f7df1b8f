-- ===== src/Tests.antt =====
-- A cluster of two machines, "a" and "b", seen from "a": the data on which the tests run.
pub mod Roles
pub mod Settings
pub mod Roster
pub mod Commands
pub mod Loading
pub mod Growth
pub mod Interfaces
pub mod Invocations
pub mod Machines
pub mod Starting
pub mod Ports
pub mod Pings
pub mod Waiting
use pulseha.Base.{
  ℕ, String, str_eq, eq_iff, ◌≡◌, ◌≢◌, arith, List, [], ◌∷◌, Bool, true, false, Option, none, some,
  ◌==◌, if◌then◌else◌,
}
use pulseha.Base.Int.{ℤ, pos}
use pulseha.GoMap.{GoMap, empty}
use pulseha.Config.{Config, Local, Node}
use pulseha.Groups.{Net}
use pulseha.Member.Sending.{CanDial}
use pulseha.World.{World, Env, Member, Client, Status, ConnState, Dial, Stored, Plugin, PluginType}

abbrev pub node_a : Node
node_a = record {
  hostname = "a";
  ip = "10.0.0.1";
  port = "49152";
  ip_groups = record { made = true; entries = ("eth0", "group1" ∷ []) ∷ [] };
}

abbrev pub node_b : Node
node_b = record {
  hostname = "b";
  ip = "10.0.0.2";
  port = "49152";
  ip_groups = record { made = true; entries = ("eth0", "group1" ∷ []) ∷ [] };
}

abbrev pub pulse : Local
pulse = record {
  health_check_interval = pos 1000;
  fail_over_interval = pos 5000;
  fail_over_limit = pos 10000;
  local_node = "id-a";
  cluster_token = "";
  logging_level = "info";
  auto_failback = true;
  log_to_file = true;
  log_file_location = "/etc/pulseha/pulseha.log";
}

abbrev pub pair : Config
pair = record {
  pulse = pulse;
  groups = record {
    made = true;
    entries = ("group1", "10.1.0.1/24" ∷ "10.1.0.2/24" ∷ []) ∷ ("spare", []) ∷ [];
  };
  nodes = record { made = true; entries = ("id-a", node_a) ∷ ("id-b", node_b) ∷ [] };
  plugins = empty;
}

-- Every other thing answers at once, and the clock shows five seconds.
abbrev pub calm : Env
calm = record {
  hostname = λ _. some "a";
  now = λ _. 5000000000;
  format_time = λ _. "";
  parse_time = λ _. 0;
  round_trip = λ _. "1ms";
  can_write = λ _. true;
  torn_file = λ _ _ s. s;
  dial = λ _ _ _ _. Dial.connected;
  conn_state = λ _ _. ConnState.ready;
  answers = λ _ _ _. none;
  health_score = λ _ _. pos 0;
  interface_exist = λ _ _. true;
  interface_names = λ _. "eth0" ∷ [];
  bring_up = λ _ _ _. none;
  bring_down = λ _ _ _. none;
  reorder = λ _ es. es;
  check_health = λ _ _. true;
}

pub calm-CanDial : CanDial calm
calm-CanDial t p ip port e same = cc

-- A member that has answered at second two.
abbrev pub member : String → Status → Member
member h s = record {
  hostname = h;
  status = s;
  last_hc_response = 2000000000;
  latency = "1ms";
  hc_busy = false;
  score = pos 0;
  client = some (record { connection = false; requester = false });
}

-- The daemon on "a" with the members in the given states.
abbrev pub daemon : Status → Status → World
daemon s t = record {
  config = pair;
  modules =
      record { name = "netcore"; plugin_type = PluginType.networking_plugin; weight = pos 0 } ∷ [];
  members = 0 ∷ 1 ∷ [];
  locked = false;
  heap = λ p. if p == 0 then member "a" s else member "b" t;
  next = 2;
  start_delay = false;
  start_interval = 1;
  file = Stored.absent;
  trace = [];
}

-- Addresses are those of IPv4 with a mask.
abbrev pub net : Net
net = record { parse_cidr = λ s. some s; parse_ip = λ s. some true }

pub distinct_texts : (s t : String) → str_eq s t ≡ false → s ≢ t
distinct_texts s t apart same = ground (arith, eq_iff s t, apart, same)
