-- ===== src/Pulsectl/Requests.antt =====
-- What the client asks of the daemon, after its checks.
use mathlib.Core.Path.{subst}
use pulseha.Base.{
  Bool, true, false, String, List, [], ◌∷◌, Option, none, some, ◌≡◌, refl, arith, str_eq, ◌&&◌,
  if◌then◌else◌,
}
use pulseha.Base.Int.{ℤ, pos, negsuc, ltb_ℤ}
use pulseha.Strconv.{atoi}
use pulseha.Groups.{Net}
use pulseha.Joining.{in_port_range}
use pulseha.Endpoints.{is_port, split_at}
use pulseha.Pulsectl.{
  Invocation, Rpc, Checked, check, check_create, check_join, check_join_target, check_cert,
  check_group, check_ips, check_assign, check_config, check_first, check_remove, check_promote,
  check_network, clean_address, with_address,
}

-- A port that CLIServer.Create takes.
abbrev pub IsServed : String → Type 0
IsServed port = in_port_range (atoi port).0 ≡ true

-- The ports of create and join are ones that the daemon takes, join has a token, and the calls that change
-- groups name what they are about.
abbrev pub IsSound : Rpc → Type 0
IsSound (Rpc.create ip port) = IsServed port
IsSound (Rpc.join ip target own port secret) =
    (IsServed target) × (IsServed port) × (str_eq secret "" ≡ false)
IsSound (Rpc.delete_group name) = str_eq name "" ≡ false
IsSound (Rpc.ip_add name ips) = str_eq name "" ≡ false
IsSound (Rpc.ip_remove name ips) = str_eq name "" ≡ false
IsSound (Rpc.assign name node_name iface) =
    (str_eq name "" ≡ false) × (str_eq node_name "" ≡ false) × (str_eq iface "" ≡ false)
IsSound (Rpc.unassign name node_name iface) =
    (str_eq name "" ≡ false) × (str_eq node_name "" ≡ false) × (str_eq iface "" ≡ false)
IsSound (Rpc.network action) = action ≡ "resync"
IsSound _ = Unit

-- What a check lets through is sound.
abbrev IsCareful : Checked → Type 0
IsCareful (Checked.request c) = IsSound c
IsCareful (Checked.rejected lines) = Unit

in_range : (i : ℤ) → (ltb_ℤ (pos 0) i && ltb_ℤ i (pos 65536)) ≡ true → in_port_range i ≡ true
in_range (pos n) e = ground arith
in_range (negsuc n) e = ground arith

is_port-IsServed : (s : String) → is_port s ≡ true → IsServed s
unfolding is_port
is_port-IsServed s e = ground (arith, in_range (atoi s).0)

with_address-IsCareful :
    (a : Option String) (m : String) (next : String → Checked)
    → ((clean : String) → IsCareful (next clean))
    → IsCareful (with_address a m next)
unfolding with_address
with_address-IsCareful (some a) m next careful = careful a
with_address-IsCareful none m next careful = tt

if-IsCareful :
    (b : Bool) (x y : Checked)
    → (b ≡ true → IsCareful x)
    → (b ≡ false → IsCareful y)
    → IsCareful (if b then x else y)
if-IsCareful true x y f g = f refl
if-IsCareful false x y f g = g refl

check_create-IsCareful : (net : Net) (args : List String) → IsCareful (check_create net args)
unfolding check_create
check_create-IsCareful net [] = tt
check_create-IsCareful net (ip ∷ []) = tt
check_create-IsCareful net (ip ∷ port ∷ more) =
    with_address-IsCareful (clean_address net ip) "Please specify a valid join address.\n" _
      λ clean. if-IsCareful (is_port port) _ _ (is_port-IsServed port) (λ bad. tt)

check_cert-IsCareful : (net : Net) (args : List String) → IsCareful (check_cert net args)
unfolding check_cert
check_cert-IsCareful net [] = tt
check_cert-IsCareful net (ip ∷ more) =
    with_address-IsCareful (clean_address net ip) "Please specify a valid join IP address.\n" _
      λ clean. tt

check_join-IsCareful :
    (net : Net) (own port secret : String) (args : List String)
    → IsCareful (check_join net own port secret args)
unfolding check_join check_join_target
check_join-IsCareful net own port secret [] = tt
check_join-IsCareful net own port secret (ip ∷ []) = tt
check_join-IsCareful net own port secret (ip ∷ target ∷ more) =
    if-IsCareful (str_eq own "127.0.0.1") _ _ (λ e. tt)
      λ own_ok.
        if-IsCareful (str_eq port "1234") _ _ (λ e. tt)
          λ port_ok.
            if-IsCareful (str_eq secret "") _ _ (λ e. tt)
              λ secret_ok.
                with_address-IsCareful (clean_address net own)
                  "Please specify a valid join address.\n" _
                  λ clean.
                    if-IsCareful (is_port port) _ _
                      (λ own_port.
                        with_address-IsCareful (clean_address net ip)
                          "Please specify a valid join address\n" _
                          λ peer.
                            if-IsCareful (is_port target) _ _
                              (λ peer_port. (
                                is_port-IsServed target peer_port,
                                is_port-IsServed port own_port,
                                secret_ok,
                              ))
                              (λ bad. tt))
                      (λ bad. tt)

check_ips-IsCareful :
    (call : String → List String → Rpc) (name ips : String)
    → ((ys : List String) → str_eq name "" ≡ false → IsSound (call name ys))
    → IsCareful (check_ips call name ips)
unfolding check_ips
check_ips-IsCareful call name ips sound =
    if-IsCareful (str_eq name "") _ _ (λ e. tt)
      λ named.
        if-IsCareful (str_eq ips "") _ _ (λ e. tt) λ some_ips. sound (split_at b',' ips) named

check_assign-IsCareful :
    (call : String → String → String → Rpc) (name host iface : String)
    → ((str_eq name "" ≡ false) × (str_eq host "" ≡ false) × (str_eq iface "" ≡ false)
        → IsSound (call name host iface))
    → IsCareful (check_assign call name host iface)
unfolding check_assign
check_assign-IsCareful call name host iface sound =
    if-IsCareful (str_eq name "") _ _ (λ e. tt)
      λ named.
        if-IsCareful (str_eq host "") _ _ (λ e. tt)
          λ hosted.
            if-IsCareful (str_eq iface "") _ _ (λ e. tt) λ placed. sound (named, hosted, placed)

check_group-IsCareful :
    (action name ips host iface : String) → IsCareful (check_group action name ips host iface)
unfolding check_group
check_group-IsCareful action name ips host iface =
    if-IsCareful (str_eq action "new") _ _ (λ e. tt)
      λ e1.
        if-IsCareful (str_eq action "delete") _ _
          (λ e. if-IsCareful (str_eq name "") _ _ (λ e2. tt) (λ named. named))
          λ e2.
            if-IsCareful (str_eq action "add") _ _
              (λ e. check_ips-IsCareful Rpc.ip_add name ips (λ ys named. named))
              λ e3.
                if-IsCareful (str_eq action "remove") _ _
                  (λ e. check_ips-IsCareful Rpc.ip_remove name ips (λ ys named. named))
                  λ e4.
                    if-IsCareful (str_eq action "assign") _ _
                      (λ e. check_assign-IsCareful Rpc.assign name host iface (λ all. all))
                      λ e5.
                        if-IsCareful (str_eq action "unassign") _ _
                          (λ e. check_assign-IsCareful Rpc.unassign name host iface (λ all. all))
                          (λ e6. tt)

check_first-IsCareful :
    (call : String → Rpc) (m : String) (args : List String)
    → ((a : String) → IsSound (call a))
    → IsCareful (check_first call m args)
unfolding check_first
check_first-IsCareful call m [] sound = tt
check_first-IsCareful call m (a ∷ more) sound = sound a

check_config-IsCareful : (args : List String) → IsCareful (check_config args)
unfolding check_config
check_config-IsCareful [] = tt
check_config-IsCareful (key ∷ []) = tt
check_config-IsCareful (key ∷ val ∷ more) = tt

check_network-IsCareful : (args : List String) → IsCareful (check_network args)
unfolding check_network
check_network-IsCareful [] = tt
check_network-IsCareful (a ∷ more) = if-IsCareful (str_eq a "resync") _ _ (λ e. refl) (λ e. tt)

check-IsCareful : (net : Net) (i : Invocation) → IsCareful (check net i)
unfolding check check_remove check_promote
check-IsCareful net Invocation.leave_command = tt
check-IsCareful net Invocation.token_command = tt
check-IsCareful net (Invocation.remove_command args) =
    check_first-IsCareful Rpc.remove "Please specify a node hostname to remove" args (λ a. tt)
check-IsCareful net (Invocation.promote_command args) =
    check_first-IsCareful Rpc.promote "Please specify a node to promote!" args (λ a. tt)
check-IsCareful net (Invocation.cert_command args) = check_cert-IsCareful net args
check-IsCareful net (Invocation.create_command args) = check_create-IsCareful net args
check-IsCareful net (Invocation.config_command args) = check_config-IsCareful args
check-IsCareful net (Invocation.network_command args) = check_network-IsCareful args
check-IsCareful net (Invocation.join_command own port secret args) =
    check_join-IsCareful net own port secret args
check-IsCareful net (Invocation.group_command action name ips host iface) =
    check_group-IsCareful action name ips host iface

-- What the client calls the daemon with is sound: the ports of create and join are numbers that
-- CLIServer.Create takes, join has a token, the group to delete or change and the node and interface of an
-- assignment have a name, and the one network action is resync.
pub check-IsSound :
    (net : Net) (i : Invocation) (c : Rpc) → check net i ≡ Checked.request c → IsSound c
check-IsSound net i c e = subst IsCareful e (check-IsCareful net i)
