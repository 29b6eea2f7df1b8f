-- ===== src/Ping/First.antt =====
-- The first health check of a daemon whose config has no section for the plugin.
use pulseha.Base.{true, ◌∷◌}
use pulseha.GoMap.{put}
use pulseha.Ping.{PingState, PingEvent, Section, plugin_name, default_section}

-- The state that the first Run leaves.
abbrev pub written : PingState → PingState
written s = record s {
  attached = true;
  plugins = put s.plugins plugin_name (Section.pointer default_section);
  events = PingEvent.config_saved ∷ s.events;
}
