-- ===== src/Ping/Sending.antt =====
-- What Send pings, once the section was read from the file.
use pulseha.Base.{String, List, [], ◌∷◌, ◌++◌, true, none, some}
use pulseha.Exec.{returned, Outcome}
use pulseha.Config.{Error}
use pulseha.Ping.{
  PingState, PingEvent, PingConfig, PingGroup, Json, Items, item, no_item, field, no_field, pinged,
}

-- A section with the groups and numbers of a config of the plugin, as json reads it; what is empty is an array
-- too, not null.
texts : List String → Items
texts [] = no_item
texts (s ∷ ss) = item (Json.text s) (texts ss)

group_json : PingGroup → Json
group_json g =
    Json.object (field "name" (Json.text g.name) (field "ips" (Json.array (texts g.ips)) no_field))

groups_json : List PingGroup → Items
groups_json [] = no_item
groups_json (g ∷ gs) = item (group_json g) (groups_json gs)

unfoldable pub encode : PingConfig → Json
unfolding groups_json group_json texts
encode c = Json.object (
    field "groups" (Json.array (groups_json c.groups)) (
      field "weight" (Json.number c.weight) (
        field "threshold" (Json.number c.threshold)
          (field "failureCount" (Json.number c.failure_count) no_field))))

-- All addresses of the groups, in order.
unfoldable pub addresses : List PingGroup → List String
addresses [] = []
addresses (g ∷ gs) = g.ips ++ addresses gs

abbrev or_rest : Error → List PingEvent → Error × List PingEvent → Error × List PingEvent
or_rest (some e) es rest = (some e, es)
or_rest none es rest = rest

-- The addresses are pinged in order up to the first that does not answer, whose error is the answer.
unfoldable pub ping_each :
    (List PingEvent → String → Error) → List String → List PingEvent → Error × List PingEvent
ping_each icmp [] es = (none, es)
ping_each icmp (ip ∷ ips) es =
    let rest = ping_each icmp ips (pinged ip ∷ es) in or_rest (icmp es ip) (pinged ip ∷ es) rest

-- The numbers of the section are the plugin's.
abbrev pub settled : PingConfig → PingState → PingState
settled c s = record s {
  attached = true;
  weight = c.weight;
  threshold = c.threshold;
  failure_count = c.failure_count;
}

abbrev pub after : PingState → Error × List PingEvent → Outcome Error × PingState
after s (e, es) = (returned e, record s { events = es })

module _ (icmp : List PingEvent → String → Error) where
  -- The addresses of one group are pinged before those of the others.
  then_rest : Error × List PingEvent → List String → Error × List PingEvent
  then_rest (some e, es) rest = (some e, es)
  then_rest (none, es) rest = ping_each icmp rest es
