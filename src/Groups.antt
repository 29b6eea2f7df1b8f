-- ===== src/Groups.antt =====
-- src/pulseha/groups.go, the functions that work on the configuration alone, with packages/utils/utils.go
-- for the addresses that they accept.
pub mod FreshName
pub mod Addresses
pub mod References
use Prim.Native.String.{◌++◌}
use pulseha.Base.{
  ℕ, zero, suc, ◌+◌, String, List, [], ◌∷◌, Bool, true, false, not, ◌&&◌, ◌||◌, Option, none, some,
  str_eq, if◌then◌else◌, any, first, concat, has_char, remove_char, length, take, drop, is_some,
}
use mathlib.Core.List.{◌++◌ as append}
use pulseha.Strconv.{itoa}
use pulseha.GoMap.{GoMap, get, put, delete, has, empty, size}
use pulseha.Config.{Config, Node, Error}

-- Package net: ParseCIDR gives the address as text, ParseIP whether the address has an IPv4 form.
pub record Net : Type 0 where
  pub parse_cidr : String → Option String
  pub parse_ip : String → Option Bool

-- The list at a key, where a missing key reads as an empty slice.
unfoldable pub slice_at : GoMap (List String) → String → List String
slice_at m k = elim (get m k) [ some l ↦ l | none ↦ [] ]

-- groupExist
abbrev pub group_exist : Config → String → Bool
group_exist c name = has c.groups name

-- groupIpExistAll
abbrev pub in_group : String → String × List String → Bool
in_group ip (name, ips) = any (str_eq ip) ips

abbrev pub group_ip_exist_all : Config → String → Bool
group_ip_exist_all c ip = any (in_group ip) c.groups.entries

-- The position of the first equal text: groupIPExist, nodeInterfaceGroupExists.
unfoldable pub index_of : String → List String → Option ℕ
index_of x [] = none
index_of x (y ∷ ys) =
    if str_eq y x then some 0 else elim (index_of x ys) [ some i ↦ some (suc i) | none ↦ none ]

-- append(l[:i], l[i+1:]...)
abbrev pub remove_at : ℕ → List String → List String
remove_at zero [] = []
remove_at zero (x ∷ xs) = xs
remove_at (suc i) [] = []
remove_at (suc i) (x ∷ xs) = x ∷ remove_at i xs

-- nodeAssignedToInterface
abbrev pub assigns : String → String × List String → Bool
assigns group (iface, gs) = any (str_eq group) gs

abbrev pub node_assigns : String → String × Node → Bool
node_assigns group (uid, n) = any (assigns group) n.ip_groups.entries

unfoldable pub node_assigned_to_interface : Config → String → Bool
node_assigned_to_interface c group = any (node_assigns group) c.nodes.entries

-- "group" + strconv.Itoa(i)
abbrev pub group_name : ℕ → String
group_name i = "group" ++ itoa i

-- The loop of genGroupName at `i`, with `left` rounds to go.
unfoldable pub gen_loop : GoMap (List String) → ℕ → ℕ → String
gen_loop m zero i = group_name (size m + 1)
gen_loop m (suc left) i =
    let later = gen_loop m left (suc i) in if has m (group_name i) then later else group_name i

-- genGroupName
unfoldable pub gen_group_name : Config → String
unfolding gen_loop
gen_group_name c = gen_loop c.groups (size c.groups) 1

abbrev write_group : Config → String → List String → Config
write_group c name ips = record c { groups = put c.groups name ips }

-- groupNew: the new configuration and the name. There is no error.
unfoldable pub group_new : Config → String → Config × String
group_new c given =
    let name = if str_eq given "" then gen_group_name c else given in (write_group c name [], name)

-- groupDelete
unfoldable pub group_delete : Config → String → Config × Error
group_delete c name =
    if group_exist c name
    then if not (node_assigned_to_interface c name)
      then (record c { groups = delete c.groups name }, none)
      else (c, some "group has network interface assignments. Please remove them and try again")
    else (c, some "unable to delete group that doesn't exist")

-- groupClearLocal
unfoldable pub group_clear_local : Config → Config
group_clear_local c = record c { groups = empty }

module _ (net : Net) where
  -- IsIPv6 and IsIPv4
  unfoldable pub is_ipv6 : String → Bool
  is_ipv6 address =
      let clean = remove_char b']' (remove_char b'[' address) in
      is_some (net.parse_ip clean) && has_char b':' clean

  unfoldable pub is_ipv4 : String → Bool
  is_ipv4 address = elim (net.parse_ip address) [ some v4 ↦ v4 | none ↦ false ]

  -- ValidIPAddress
  unfoldable pub valid_ip_address : String → Error
  unfolding is_ipv6 is_ipv4
  valid_ip_address address = elim (net.parse_cidr address) [
    | none ↦ some "invalid CDIR address specified"
    | some ip ↦ if is_ipv6 ip || is_ipv4 ip then none else some "invalid IP address"
  ]

  -- The loop of groupIpAdd.
  unfoldable pub add_ips : Config → String → List String → Config × Error
  add_ips c name [] = (c, none)
  add_ips c name (ip ∷ ips) =
      let added =
        add_ips (write_group c name (append (slice_at c.groups name) (ip ∷ []))) name ips in
      elim (valid_ip_address ip) [
        | some e ↦ (c, some e)
        | none ↦
            if group_ip_exist_all c ip
            then (c, some (concat (ip ∷ " already exists in group " ∷ name ∷ ".. skipping." ∷ [])))
            else added
      ]

  -- groupIpAdd, given whether there is an active member
  unfoldable pub group_ip_add : Config → Bool → String → List String → Config × Error
  unfolding add_ips
  group_ip_add c active name ips =
      if not active
      then (c, some "unable to add IP(s) to group as there no active node in the cluster")
      else if not (group_exist c name)
      then (c, some "group does not exist")
      else add_ips c name ips

-- The body of groupIpRemove's loop: the new configuration, and whether it warns.
unfoldable pub remove_ip : Config → String → String → Config × Bool
unfolding index_of
remove_ip c name ip = elim (slice_at c.groups name) [
  | [] ↦ (c, false)
  | x ∷ xs ↦ elim (index_of ip (x ∷ xs)) [
    | some i ↦ (write_group c name (remove_at i (x ∷ xs)), false)
    | none ↦ (c, true)
  ]
]
