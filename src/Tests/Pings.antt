-- ===== src/Tests/Pings.antt =====
-- Tests of the health check that pings.
use pulseha.Base.{String, List, [], ◌∷◌, false, true, some, ◌≡◌, refl}
use pulseha.Base.Int.{pos}
use pulseha.GoMap.{empty}
use pulseha.Config.{Error}
use pulseha.Ping.{PingState, PingConfig, PingEvent, Section, plugin_name, pinged}
use pulseha.Ping.Sending.{encode, addresses, ping_each}

-- No ping is answered.
abbrev nobody : List PingEvent → String → Error
nobody es ip = some "no answer"

abbrev unstarted : PingState
unstarted = record {
  attached = false;
  plugins = empty;
  weight = pos 10;
  threshold = pos 1;
  failure_count = pos 1;
  events = [];
}

abbrev gateways : PingConfig
gateways = record {
  groups = record { name = "gateways"; ips = "10.0.0.254" ∷ "10.0.1.254" ∷ [] } ∷ [];
  weight = pos 20;
  threshold = pos 2;
  failure_count = pos 3;
}

abbrev restarted : PingState
restarted = record unstarted {
  plugins = record { made = true; entries = (plugin_name, Section.decoded (encode gateways)) ∷ [] };
}

first_unanswered :
    ping_each nobody (addresses gateways.groups) [] ≡ (some "no answer", pinged "10.0.0.254" ∷ [])
unfolding ping_each addresses
first_unanswered = refl
