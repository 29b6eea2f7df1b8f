-- ===== src/Config.antt =====
-- packages/config/config.go: the configuration, its validation, and the lookups in it.
pub mod Validity
pub mod Lookups
use pulseha.Base.{
  ℕ, String, List, [], ◌∷◌, Bool, true, false, not, ◌&&◌, ◌||◌, Option, none, some, str_eq, ltb,
  if◌then◌else◌, first, any, map, concat,
}
use pulseha.Base.Int.{ℤ, pos, ltb_ℤ}
use pulseha.GoMap.{GoMap, get, size, empty}

-- type Local
pub record Local : Type 0 where
  pub health_check_interval : ℤ
  pub fail_over_interval : ℤ
  pub fail_over_limit : ℤ
  pub local_node : String
  pub cluster_token : String
  pub logging_level : String
  pub auto_failback : Bool
  pub log_to_file : Bool
  pub log_file_location : String

pub record Node : Type 0 where
  pub hostname : String
  pub ip : String
  pub port : String
  pub ip_groups : GoMap (List String)

-- The sections of the plugins are texts here: the daemon keeps them and never reads into them.
pub record Config : Type 0 where
  pub pulse : Local
  pub groups : GoMap (List String)
  pub nodes : GoMap Node
  pub plugins : GoMap String

-- A Go `error`: `none` is nil.
abbrev pub Error : Type 0
Error = Option String

-- Node{}
abbrev pub no_node : Node
no_node = record {
  hostname = "";
  ip = "";
  port = "";
  ip_groups = record { made = false; entries = [] };
}

unfoldable pub node_count : Config → ℕ
node_count c = size c.nodes

unfoldable pub cluster_check : Config → Bool
cluster_check c = ltb 0 (size c.nodes)

abbrev pub or_no_node : Option Node → String → Node × Error
or_no_node (some n) e = (n, none)
or_no_node none e = (no_node, some e)

unfoldable pub get_local_node : Config → Node × Error
unfolding cluster_check
get_local_node c =
    if cluster_check c
    then or_no_node (get c.nodes c.pulse.local_node) "local node not found in config"
    else (no_node, some "cluster check failed")

-- The body of the loops that look for a node by its hostname.
abbrev pub match_hostname : String → String × Node → Option (String × Node)
match_hostname hostname (uid, n) = if str_eq n.hostname hostname then some (uid, n) else none

abbrev pub find_by_hostname : String → List (String × Node) → Option (String × Node)
find_by_hostname hostname = first (match_hostname hostname)

abbrev or_unknown_host : Option (String × Node) → String → String × Node × Error
or_unknown_host (some (uid, n)) e = (uid, n, none)
or_unknown_host none e = ("", no_node, some e)

unfoldable pub get_node_by_hostname : Config → String → String × Node × Error
get_node_by_hostname c hostname =
    or_unknown_host (find_by_hostname hostname c.nodes.entries)
      (concat ("unable to find node with hostname " ∷ hostname ∷ []))

-- LocalNode: the node that bears the machine's hostname, or an empty one
unfoldable pub local_node : Option String → Config → Node
unfolding get_node_by_hostname
local_node none c = no_node
local_node (some hostname) c = (get_node_by_hostname c hostname).1

abbrev assigned_iface : String → String × List String → Option String
assigned_iface group (iface, gs) = if any (str_eq group) gs then some iface else none

abbrev node_iface : String → String → String × Node → Option String
node_iface hostname group (uid, n) =
    if str_eq n.hostname hostname then first (assigned_iface group) n.ip_groups.entries else none

abbrev or_no_iface : Option String → String × Error
or_no_iface (some i) = (i, none)
or_no_iface none = ("", some "cannot find interface assignment for group")

unfoldable pub get_group_iface : Config → String → String → String × Error
get_group_iface c hostname group = or_no_iface (first (node_iface hostname group) c.nodes.entries)

abbrev match_address : String → String × Node → Option String
match_address address (uid, n) = if str_eq n.ip address then some n.hostname else none

abbrev or_no_address : String → Option String → String × Error
or_no_address address (some h) = (h, none)
or_no_address address none =
    ("", some (concat ("unable to find node with IP address " ∷ address ∷ [])))

unfoldable pub get_node_hostname_by_address : Config → String → String × Error
get_node_hostname_by_address c address =
    or_no_address address (first (match_address address) c.nodes.entries)

-- Is a hostname that of some node?
abbrev pub has_hostname : String → List (String × Node) → Bool
has_hostname hostname = any (λ e. str_eq e.1.hostname hostname)

abbrev below_second : ℤ → Bool
below_second i = ltb_ℤ i (pos 1000)

check_intervals : Local → Error
check_intervals p =
    if below_second p.fail_over_interval
      || below_second p.fail_over_limit
      || below_second p.health_check_interval
    then some
        "please make sure the interval and limit values in your config are valid millisecond values of at least one second"
    else if ltb_ℤ p.fail_over_limit p.fail_over_interval
    then some "the fos_interval value must be a smaller value then your fo_limit"
    else none

-- Validate, on the machine's hostname: nil is `none`.
unfoldable pub validate : Option String → Config → Error
unfolding check_intervals cluster_check
validate none c = some "unable to get local hostname"
validate (some hostname) c =
    if not c.groups.made
    then some "unable to load groups section of the config"
    else if not c.nodes.made
    then some "unable to load nodes section of the config"
    else if cluster_check c && not (has_hostname hostname c.nodes.entries)
    then some "hostname mismatch. Local hostname does not exist in nodes section"
    else check_intervals c.pulse

-- The configuration that SaveDefaultLocalConfig writes
unfoldable pub default_config : Config
default_config = record {
  pulse = record {
    health_check_interval = pos 1000;
    fail_over_interval = pos 5000;
    fail_over_limit = pos 10000;
    local_node = "";
    cluster_token = "";
    logging_level = "info";
    auto_failback = true;
    log_to_file = true;
    log_file_location = "/etc/pulseha/pulseha.log";
  };
  groups = empty;
  nodes = empty;
  plugins = empty;
}
