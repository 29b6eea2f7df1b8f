-- ===== src/Nodes.antt =====
-- src/pulseha/nodes.go: the nodes section of the configuration. The section is a map from the moment
-- that the daemon has loaded its configuration.
pub mod Changes
use pulseha.Base.{
  String, List, [], ◌∷◌, Bool, true, false, Option, none, some, str_eq, if◌then◌else◌, any,
}
use pulseha.GoMap.{GoMap, get, put, delete, has, empty}
use pulseha.Config.{Config, Node, Error, no_node, find_by_hostname}

-- nodeExistsByUUID
abbrev pub node_exists_by_uuid : Config → String → Bool
node_exists_by_uuid c uid = has c.nodes uid

-- nodeAdd
unfoldable pub node_add : Config → String → Node → Config × Error
node_add c uid n =
    if node_exists_by_uuid c uid
    then (c, some "unable to complete action as node already exists")
    else (record c { nodes = put c.nodes uid n }, none)

-- nodeDelete
unfoldable pub node_delete : Config → String → Config × Error
node_delete c uid =
    if node_exists_by_uuid c uid
    then (record c { nodes = delete c.nodes uid }, none)
    else (c, some "unable to find node in config")

-- nodesClearLocal
unfoldable pub nodes_clear_local : Config → Config
nodes_clear_local c = record c { nodes = empty }

-- nodeExistsByHostname
abbrev has_name : String → String × Node → Bool
has_name h (uid, n) = str_eq n.hostname h

unfoldable pub node_exists_by_hostname : Config → String → Bool
node_exists_by_hostname c h = any (has_name h) c.nodes.entries

abbrev or_not_found : Option (String × Node) → String × Node × Error
or_not_found (some (uid, n)) = (uid, n, none)
or_not_found none = ("", no_node, some "unable to find node in config")

-- nodeGetByHostname
unfoldable pub node_get_by_hostname : Config → String → String × Node × Error
node_get_by_hostname c h = or_not_found (find_by_hostname h c.nodes.entries)
