-- ===== src/Tests/Interfaces.antt =====
-- Tests of the plugin that puts addresses on interfaces, and of addresses with ports.
use Prim.Native.String.{String}
use pulseha.Base.{
  List, [], ◌∷◌, true, false, none, some, Bool, ◌≡◌, refl, has_char, str_eq, if◌then◌else◌, select,
  not, any,
}
use pulseha.Groups.{Net, is_ipv6}
use pulseha.Netcore.{
  Netlink, Host, bring_up_all, bring_ip_up, check_if_ip_exists, interface_exist, announcement,
}
use pulseha.Netcore.Announcing.{TakesNoMask, garps, bring_up_all-garps}
use pulseha.Endpoints.{
  split_ip_port, has_port, split_at, last_index, count, format_ipv6, sanitize_ipv6,
}

-- A network is the list of what stands on which interface; there are two interfaces.
abbrev Kernel : Type 0
Kernel = List (String × String)

abbrev same_place : String → String → String × String → Bool
same_place iface ip (i, a) = if str_eq i iface then str_eq a ip else false

abbrev netlink : Netlink Kernel
netlink = record {
  link_list = λ k. ("eth0" ∷ "eth1" ∷ [], none);
  link_by_name = λ k name. any (str_eq name) ("eth0" ∷ "eth1" ∷ []);
  is_slave = λ k name. false;
  addr_list = λ k name. ([], none);
  parse_addr = λ ip. true;
  addr_add = λ iface ip k. some ((iface, ip) ∷ k);
  addr_del = λ iface ip k. some (select (λ p. not (same_place iface ip p)) k);
  arping = λ k iface ip. true;
}

-- No text with a slash is an address.
abbrev plain : Net
plain = record {
  parse_cidr = λ s. some s;
  parse_ip = λ s. if has_char b'/' s then none else some true;
}

plain-TakesNoMask : TakesNoMask plain
plain-TakesNoMask s slash = rw slash refl

abbrev host : Host Kernel
host = record { kernel = []; announced = [] }

abbrev addresses : List String
addresses = "10.1.0.1/24" ∷ "2001:db8::1/64" ∷ []

goes_up : (bring_up_all netlink plain "eth0" addresses host).0 ≡ none
unfolding bring_up_all bring_ip_up check_if_ip_exists interface_exist announcement is_ipv6
goes_up = refl

bring_up_all_example :
    (bring_up_all netlink plain "eth0" addresses host).1.announced ≡ garps "eth0" addresses []
bring_up_all_example =
    bring_up_all-garps netlink plain plain-TakesNoMask "eth0" addresses host (refl, (refl, tt))
      goes_up

with_port : has_port "10.0.0.1:49152" ≡ true
unfolding has_port last_index count
with_port = refl

split_example : split_ip_port "10.0.0.1:49152" ≡ ("10.0.0.1", "49152", none)
unfolding split_ip_port split_at
split_example = refl

-- The brackets are doubled.
doubled :
    format_ipv6 (record { parse_cidr = λ s. some s; parse_ip = λ s. some false }) "[::1]"
    ≡ "[[::1]]"
unfolding format_ipv6 is_ipv6 sanitize_ipv6
doubled = refl
