-- ===== src/Plugins.antt =====
-- src/pulseha/plugins.go: which plugins are loaded. What the opened shared objects hold is a parameter.
pub mod Loading
use pulseha.Base.{
  ℕ, String, List, [], ◌∷◌, ◌++◌, Bool, true, false, Option, none, some, if◌then◌else◌, is_some,
  first,
}
use pulseha.Base.Int.{ℤ}
use pulseha.World.{Plugin, PluginType}
use pulseha.Network.{if_networking}

-- A shared object: what Lookup finds under the name of a type, if that has the interface of the type.
pub record SharedObject : Type 0 where
  pub symbol : PluginType → Option Plugin

abbrev pub typed : PluginType → Plugin → Plugin
typed kind p = record p { plugin_type = kind }

-- GetNetworkingPlugin
abbrev pub networking_of : List Plugin → Option Plugin
networking_of = first if_networking

-- Plugins.modules, and the plugins whose Run was started as a goroutine.
pub record Loaded : Type 0 where
  pub modules : List Plugin
  pub running : List Plugin

-- Lookup and the type assertion, and a new plugin appended: the two types with a Run are started.
abbrev pub with_symbol : PluginType → Loaded → Option Plugin → Loaded
with_symbol kind l none = l
with_symbol PluginType.networking_plugin l (some p) = record l {
  modules = l.modules ++ typed PluginType.networking_plugin p ∷ [];
}
with_symbol PluginType.general_plugin l (some p) = record {
  modules = l.modules ++ typed PluginType.general_plugin p ∷ [];
  running = typed PluginType.general_plugin p ∷ l.running;
}
with_symbol PluginType.health_check_plugin l (some p) = record {
  modules = l.modules ++ typed PluginType.health_check_plugin p ∷ [];
  running = typed PluginType.health_check_plugin p ∷ l.running;
}

-- The body of Load: a second networking plugin is passed over.
unfoldable pub load_one : PluginType → SharedObject → Loaded → Loaded
load_one PluginType.networking_plugin o l =
    if is_some (networking_of l.modules)
    then l
    else with_symbol PluginType.networking_plugin l (o.symbol PluginType.networking_plugin)
load_one PluginType.general_plugin o l =
    with_symbol PluginType.general_plugin l (o.symbol PluginType.general_plugin)
load_one PluginType.health_check_plugin o l =
    with_symbol PluginType.health_check_plugin l (o.symbol PluginType.health_check_plugin)

-- Load
unfoldable pub load_plugins : PluginType → List SharedObject → Loaded → Loaded
unfolding load_one
load_plugins kind [] l = l
load_plugins kind (o ∷ os) l = load_plugins kind os (load_one kind o l)

-- Setup, for the shared objects that open
unfoldable pub setup_plugins : List SharedObject → Loaded → Loaded
unfolding load_plugins
setup_plugins os l = load_plugins PluginType.general_plugin os (
    load_plugins PluginType.networking_plugin os (load_plugins PluginType.health_check_plugin os l))
