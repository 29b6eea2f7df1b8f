-- ===== src/Tests/Loading.antt =====
-- Tests of the loading of plugins.
use pulseha.Base.{List, [], ◌∷◌, Option, none, some, ◌≡◌, ◌≤◌, refl, arith}
use pulseha.Base.Int.{pos}
use pulseha.World.{Plugin, PluginType}
use pulseha.Plugins.{SharedObject, Loaded, setup_plugins}
use pulseha.Plugins.Loading.{
  networking_count, networking, or_else, first_offered, setup_plugins-networking,
}

abbrev netcore : Plugin
netcore = record { name = "netcore"; plugin_type = PluginType.networking_plugin; weight = pos 0 }

abbrev rival : Plugin
rival = record { name = "rival"; plugin_type = PluginType.networking_plugin; weight = pos 0 }

abbrev pinger : Plugin
pinger = record { name = "ping"; plugin_type = PluginType.health_check_plugin; weight = pos 20 }

abbrev as_network : Plugin → PluginType → Option Plugin
as_network p PluginType.networking_plugin = some p
as_network p PluginType.general_plugin = none
as_network p PluginType.health_check_plugin = none

abbrev as_check : Plugin → PluginType → Option Plugin
as_check p PluginType.health_check_plugin = some p
as_check p PluginType.general_plugin = none
as_check p PluginType.networking_plugin = none

abbrev objects : List SharedObject
objects =
    record { symbol = as_check pinger }
    ∷ record { symbol = as_network netcore }
    ∷ record { symbol = as_network rival }
    ∷ []

abbrev nothing : Loaded
nothing = record { modules = []; running = [] }

-- Two objects offer a networking plugin.
setup_plugins_example :
    (networking_count (setup_plugins objects nothing) ≤ 1)
    × (networking (setup_plugins objects nothing)
        ≡ or_else (networking nothing) (first_offered objects))
setup_plugins_example = setup_plugins-networking objects nothing (omega arith)

loads_both :
    (setup_plugins objects nothing)
    ≡ record { modules = pinger ∷ netcore ∷ []; running = pinger ∷ [] }
unfolding setup_plugins
loads_both = refl
