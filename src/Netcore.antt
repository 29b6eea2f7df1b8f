-- ===== src/Netcore.antt =====
-- packages/network/network.go over netlink, and src/plugins/netcore/main.go: how floating addresses get on
-- and off the machine's interfaces, and how that is announced. Curl, ICMPv4, ArpScan and
-- netInterfaceStatus each run one program and are left out.
pub mod Announcing
use pulseha.Base.{
  String, List, [], ◌∷◌, Bool, true, false, not, Option, none, some, str_eq, if◌then◌else◌, concat,
  is_some, first, map,
}
use pulseha.Config.{Error}
use pulseha.Groups.{Net, is_ipv6}
use pulseha.Exec.{Exec, pure, exit, gets, modify, skip, ◌>>=◌, ◌>>◌}

-- The calls of the netlink library on the machine's network `K`; an interface goes by its name.
pub record Netlink (K : Type 0) : Type 0 where
  -- LinkList and its error
  pub link_list : K → List String × Error
  pub link_by_name : K → String → Bool
  -- Attrs().Slave is not nil
  pub is_slave : K → String → Bool
  -- AddrList for IPv4: the addresses as text, with their labels
  pub addr_list : K → String → List (String × String) × Error
  pub parse_addr : String → Bool
  pub addr_add : String → String → K → Option K
  pub addr_del : String → String → K → Option K
  -- the program arping ends well
  pub arping : K → String → String → Bool

pub data Announcement : Type 0 where
  -- SendGARP and IPv6NDP, started as goroutines
  garp : String → String → Announcement
  ndp : String → Announcement

-- The machine: its network, and what was started to announce addresses, newest first.
pub record Host (K : Type 0) : Type 0 where
  pub kernel : K
  pub announced : List Announcement

abbrev match_address : String → String × String → Option String
match_address ip (a, label) = if str_eq ip a then some label else none

-- CheckIfIPExists: an error, or the label of the first address of that text.
pub data Lookup : Type 0 where
  lookup_failed on_label : String → Lookup
  nowhere : Lookup

module _ {K : Type 0} (n : Netlink K) (net : Net) where
  -- InterfaceExist
  unfoldable pub interface_exist : K → String → Bool
  interface_exist k name = n.link_by_name k name

  -- GetInterfaceNames
  unslaved : K → List String → List String
  unslaved k [] = []
  unslaved k (l ∷ ls) = let rest = unslaved k ls in if n.is_slave k l then rest else l ∷ rest

  unfoldable pub get_interface_names : K → List String
  unfolding unslaved
  get_interface_names k =
      let (ls, e) = n.link_list k in elim e [ some text ↦ [] | none ↦ unslaved k ls ]

  search_link : List (String × String) × Error → String → Lookup → Lookup
  search_link (found, some e) ip rest = Lookup.lookup_failed e
  search_link (found, none) ip rest = elim (first (match_address ip) found) [
    | some label ↦ Lookup.on_label label
    | none ↦ rest
  ]

  search_links : K → String → List String → Lookup
  unfolding search_link
  search_links k ip [] = Lookup.nowhere
  search_links k ip (l ∷ ls) = search_link (n.addr_list k l) ip (search_links k ip ls)

  search_all : K → String → List String × Error → Lookup
  unfolding search_links
  search_all k ip (ls, none) = search_links k ip ls
  search_all k ip (ls, some e) = Lookup.lookup_failed e

  -- CheckIfIPExists
  unfoldable pub check_if_ip_exists : K → String → Lookup
  unfolding search_all
  check_if_ip_exists k ip = search_all k ip (n.link_list k)

  -- The changed network, or the error and the network as it was.
  or_failed : K → String → Option K → Error × K
  or_failed k e (some after) = (none, after)
  or_failed k e none = (some e, k)

  -- BringIPdown
  unfoldable pub bring_ip_down : String → String → K → Error × K
  unfolding interface_exist or_failed
  bring_ip_down iface ip k =
      if not (interface_exist k iface)
      then (some "unable to bring IP down as the network interface does not exist", k)
      else if not (n.parse_addr ip)
      then (some "unable to bring IP down because ip address couldn't be parsed", k)
      else or_failed k
          (concat (
            "Unable to bring down ip " ∷ ip ∷ " on interface " ∷ iface
            ∷ ". Perhaps it doesn't exist?" ∷ []))
          (n.addr_del iface ip k)

  -- The end of BringIPup.
  add_address : String → String → K → Error × K
  unfolding or_failed
  add_address iface ip k =
      if not (n.parse_addr ip)
      then (some "unable to bring IP up because ip address couldn't be parsed", k)
      else or_failed k "unable to bring IP up as netlink failed to do so" (n.addr_add iface ip k)

  after_lookup : String → String → K → Lookup → Error × K
  unfolding add_address
  after_lookup iface ip k (Lookup.lookup_failed e) = (some e, k)
  after_lookup iface ip k (Lookup.on_label label) =
      add_address iface ip (bring_ip_down label ip k).1
  after_lookup iface ip k Lookup.nowhere = add_address iface ip k

  -- The text of GetCIDR's address: that of a nil address where the text is not one in CIDR form.
  cidr_text : String → String
  cidr_text ip = elim (net.parse_cidr ip) [ some t ↦ t | none ↦ "<nil>" ]

  -- BringIPup
  unfoldable pub bring_ip_up : String → String → K → Error × K
  unfolding interface_exist after_lookup cidr_text check_if_ip_exists
  bring_ip_up iface ip k =
      if not (interface_exist k iface)
      then (some "unable to bring IP up as the network interface does not exist", k)
      else after_lookup iface ip k (check_if_ip_exists k (cidr_text ip))

  -- SendGARP: a missing interface ends the process.
  unfoldable pub send_garp : String → String → Exec K Bool
  send_garp iface ip = do
    there ← gets (λ k. interface_exist k iface)
    sent ← gets (λ k. elim (net.parse_cidr ip) [ some t ↦ n.arping k iface t | none ↦ false ])
    if not there then exit else pure sent

  -- What BringUpIPs starts for an address that is up.
  unfoldable pub announcement : String → String → Announcement
  announcement iface ip =
      if is_ipv6 net ip then Announcement.ndp iface else Announcement.garp iface ip

  announce : String → String → K → Host K → Host K
  unfolding announcement
  announce iface ip k h = record { kernel = k; announced = announcement iface ip ∷ h.announced }

  or_rest : Host K → Error × K → Error × Host K → Error × Host K
  or_rest h (some e, k) rest = (some e, record h { kernel = k })
  or_rest h (none, k) rest = rest

  -- PulseNetCore.BringUpIPs: it stops at the first error.
  unfoldable pub bring_up_all : String → List String → Host K → Error × Host K
  unfolding announce or_rest
  bring_up_all iface [] h = (none, h)
  bring_up_all iface (ip ∷ ips) h =
      let r = bring_ip_up iface ip h.kernel in
      let rest = bring_up_all iface ips (announce iface ip r.1 h) in or_rest h r rest

  -- PulseNetCore.BringDownIPs: errors are only logged.
  unfoldable pub bring_down_all : String → List String → Host K → Host K
  bring_down_all iface [] h = h
  bring_down_all iface (ip ∷ ips) h =
      bring_down_all iface ips (record h { kernel = (bring_ip_down iface ip h.kernel).1 })
