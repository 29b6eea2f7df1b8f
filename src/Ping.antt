-- ===== src/Ping.antt =====
-- plugins/hcPing: the health check that pings groups of addresses, over GetPluginConfig and SetPluginConfig
-- of packages/config/config.go.
pub mod First
pub mod Sending
use pulseha.Base.{
  ℕ, String, List, [], ◌∷◌, Bool, true, false, Option, none, some, str_eq, if◌then◌else◌,
}
use pulseha.Base.Int.{ℤ, pos}
use pulseha.GoMap.{GoMap, get, put}
use pulseha.Config.{Error}
use pulseha.Exec.{Exec, pure, panic, gets, modify, deref, skip, ◌>>=◌, ◌>>◌}

-- What encoding/json decodes into an interface; a number by its whole part, which is taken
-- to be in the range of int64
mutual
  pub data Json : Type 0 where
    null : Json
    bool : Bool → Json
    number : ℤ → Json
    text : String → Json
    array : Items → Json
    object : Fields → Json

  pub data Items : Type 0 where
    no_item : Items
    item : Json → Items → Items

  pub data Fields : Type 0 where
    no_field : Fields
    field : String → Json → Fields → Fields

-- Group and Config of packages/config
pub record PingGroup : Type 0 where
  pub name : String
  pub ips : List String

pub record PingConfig : Type 0 where
  pub groups : List PingGroup
  pub weight : ℤ
  pub threshold : ℤ
  pub failure_count : ℤ

-- GenerateDefaultConfig
abbrev pub default_section : PingConfig
default_section = record { groups = []; weight = pos 10; threshold = pos 1; failure_count = pos 1 }

-- A section of Plugins: a pointer that SetPluginConfig was given, or what Load read from the file.
pub data Section : Type 0 where
  pointer : PingConfig → Section
  decoded : Json → Section

pub data PingEvent : Type 0 where
  -- Config.Save was called
  config_saved : PingEvent
  pinged : String → PingEvent

-- The plugin's variables, with the sections of the config and what it did, newest first.
pub record PingState : Type 0 where
  -- DB is set
  pub attached : Bool
  pub plugins : GoMap Section
  pub weight : ℤ
  pub threshold : ℤ
  pub failure_count : ℤ
  pub events : List PingEvent

abbrev pub Ping : Type 0 → Type 0
Ping A = Exec PingState A

abbrev pub present : Option Section → Option Section
present (some (Section.decoded Json.null)) = none
present s = s

-- GetPluginConfig; no section is its error.
unfoldable pub get_plugin_config : String → PingState → Option Section
get_plugin_config name s = present (get s.plugins name)

abbrev pub log_ping : PingEvent → PingState → PingState
log_ping e s = record s { events = e ∷ s.events }

set_if_missing : String → Section → Option Section → Ping (Unit {0})
set_if_missing name c (some old) = skip
set_if_missing name c none = do
  made ← gets (λ s. s.plugins.made)
  if made then modify (λ s. record s { plugins = put s.plugins name c }) else panic

-- SetPluginConfig, which panics where Plugins is a nil map and the section is missing; the error of Save is dropped.
unfoldable pub set_plugin_config : String → Section → Ping Error
unfolding set_if_missing
set_plugin_config name c = do
  old ← gets (get_plugin_config name)
  set_if_missing name c old
  modify (log_ping PingEvent.config_saved)
  pure none

abbrev pub plugin_name : String
plugin_name = "PingHC"

-- The type assertions; none is a panic.
abbrev pub as_object : Json → Option Fields
as_object (Json.object fs) = some fs
as_object _ = none

abbrev pub as_array : Json → Option Items
as_array (Json.array xs) = some xs
as_array _ = none

abbrev pub as_number : Json → Option ℤ
as_number (Json.number z) = some z
as_number _ = none

abbrev pub as_text : Json → Option String
as_text (Json.text s) = some s
as_text _ = none

abbrev pub section_object : Section → Option Fields
section_object (Section.pointer c) = none
section_object (Section.decoded j) = as_object j

-- An entry of the decoded object: of the same name twice, the last one counts, and a missing one is nil.
abbrev pub field_of : String → Json → Fields → Json
field_of name before no_field = before
field_of name before (field n j fs) = field_of name (if str_eq n name then j else before) fs

abbrev pub entry : String → Fields → Json
entry name fs = field_of name Json.null fs

unfoldable pub run_section : Option Section → Ping Error
run_section none = do set_plugin_config plugin_name (Section.pointer default_section); pure none
run_section (some s) = do
  fs ← deref (section_object s)
  w ← deref (as_number (entry "weight" fs))
  modify (λ s. record s { weight = w })
  t ← deref (as_number (entry "threshold" fs))
  modify (λ s. record s { threshold = t })
  f ← deref (as_number (entry "failureCount" fs))
  modify (λ s. record s { failure_count = f })
  pure none

-- Run of the plugin
unfoldable pub run_ping : Ping Error
unfolding run_section
run_ping = do
  modify (λ s. record s { attached = true })
  c ← gets (get_plugin_config plugin_name)
  run_section c

-- network.ICMPv4: what the ping of an address answers, after all that was done
module _ (icmp : List PingEvent → String → Error) where
  unfoldable pub or_stop : Error → Ping Error → Ping Error
  or_stop (some e) rest = pure (some e)
  or_stop none rest = rest

  unfoldable pub ping : String → Ping Error
  ping ip = do e ← gets (λ s. icmp s.events ip); modify (log_ping (PingEvent.pinged ip)); pure e

  unfoldable pub ping_all : Items → Ping Error
  unfolding or_stop
  ping_all no_item = pure none
  ping_all (item j js) =
      let rest = ping_all js in do ip ← deref (as_text j); e ← ping ip; or_stop e rest

  unfoldable pub ping_groups : Items → Ping Error
  unfolding or_stop ping_all
  ping_groups no_item = pure none
  ping_groups (item g gs) =
      let rest = ping_groups gs in
      do
        fs ← deref (as_object g)
        ips ← deref (as_array (entry "ips" fs))
        e ← ping_all ips
        or_stop e rest

  unfoldable pub send_section : Option Section → Ping Error
  unfolding ping_groups
  send_section none = pure none
  send_section (some s) = do
    fs ← deref (section_object s)
    gs ← deref (as_array (entry "groups" fs))
    ping_groups gs

  -- Send of the plugin; without DB it follows a nil pointer.
  unfoldable pub send_pings : Ping Error
  unfolding send_section
  send_pings = do
    there ← gets (λ s. s.attached)
    c ← gets (get_plugin_config plugin_name)
    if there then send_section c else panic
