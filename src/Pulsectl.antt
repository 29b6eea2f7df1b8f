-- ===== src/Pulsectl.antt =====
-- src/pulsectl: the commands of the client. Each parses its flags (package flag, outside the repository),
-- checks its arguments, makes one call of the daemon, prints, and ends with an exit code (Output). The tables of
-- status and of the groups only print and are left out.
pub mod Output
pub mod Requests
pub mod Entry
use pulseha.Base.{
  ℕ, String, List, [], ◌∷◌, Bool, true, false, not, ◌||◌, Option, none, some, str_eq, if◌then◌else◌,
  concat,
}
use pulseha.Config.{Error}
use pulseha.Groups.{Net, is_ipv6, is_ipv4}
use pulseha.Endpoints.{sanitize_ipv6, is_port, split_at}

-- The calls of rpc.CLIClient.
pub data Rpc : Type 0 where
  leave new_token : Rpc
  remove promote tls network new_group delete_group : String → Rpc
  create set_config : String → String → Rpc
  ip_add ip_remove : String → List String → Rpc
  -- group, node and interface
  assign unassign : String → String → String → Rpc
  -- address and port to join, own address and port, token
  join : String → String → String → String → String → Rpc

pub data Answer : Type 0 where
  -- the call itself failed
  call_failed : String → Answer
  -- Success and Message
  answered : Bool → String → Answer

-- The daemon on this machine.
pub record Service : Type 0 where
  pub dial : Error
  pub call : Rpc → Answer

-- What is printed: Ui.Error, Ui.Output, and the help text through either.
pub data Line : Type 0 where
  error output : String → Line
  error_help output_help : Line

-- The flags with their values, and the arguments behind them.
pub data Invocation : Type 0 where
  leave_command token_command : Invocation
  remove_command promote_command cert_command create_command config_command network_command :
      List String → Invocation
  -- bind-ip, bind-port and token
  join_command : String → String → String → List String → Invocation
  -- name, ips, node and iface, for an action
  group_command : String → String → String → String → String → Invocation

-- The checks of a command: what it prints before it gives up, or the call that it makes.
pub data Checked : Type 0 where
  rejected : List Line → Checked
  request : Rpc → Checked

abbrev give_up : String → Checked
give_up m = Checked.rejected (Line.error m ∷ Line.error "" ∷ Line.error_help ∷ [])

abbrev give_up_short : String → Checked
give_up_short m = Checked.rejected (Line.error m ∷ Line.output_help ∷ [])

-- The rest of a command behind a valid address.
with_address : Option String → String → (String → Checked) → Checked
with_address (some a) m next = next a
with_address none m next = give_up_short m

module _ (net : Net) where
  -- An address: one of IPv6 loses its brackets.
  clean_address : String → Option String
  clean_address a =
      if is_ipv6 net a then some (sanitize_ipv6 a) else if is_ipv4 net a then some a else none

  -- CreateCommand.Run
  check_create : List String → Checked
  unfolding clean_address with_address
  check_create (ip ∷ port ∷ more) =
      with_address (clean_address ip) "Please specify a valid join address.\n" λ clean.
        if is_port port
        then Checked.request (Rpc.create clean port)
        else give_up_short "Please specify a valid port 0-65536.\n"
  check_create _ = give_up_short "Please specify an address and port for PulseHA to listen on\n"

  -- CertCommand.Run
  check_cert : List String → Checked
  unfolding clean_address with_address
  check_cert [] = give_up_short "Please specify the PulseHA bind IP address\n"
  check_cert (ip ∷ more) =
      with_address (clean_address ip) "Please specify a valid join IP address.\n"
        λ clean. Checked.request (Rpc.tls clean)

  check_join_target : String → String → String → String → String → Checked
  unfolding clean_address with_address
  check_join_target own port token ip target =
      with_address (clean_address ip) "Please specify a valid join address\n" λ clean.
        if is_port target
        then Checked.request (Rpc.join clean target own port token)
        else give_up_short "Please specify a valid join port 0-65536\n"

  -- JoinCommand.Run
  check_join : String → String → String → List String → Checked
  unfolding check_join_target
  check_join own port token (ip ∷ target ∷ more) =
      if str_eq own "127.0.0.1"
      then give_up_short "Please specify a bind IP address\n"
      else if str_eq port "1234"
      then give_up_short "Please specify a bind port\n"
      else if str_eq token ""
      then give_up_short "Please provide a valid unique cluster token\n"
      else with_address (clean_address own) "Please specify a valid join address.\n" λ clean.
        if is_port port
        then check_join_target clean port token ip target
        else give_up_short "Please specify a valid port 0-65536\n"
  check_join own port token _ = give_up "Please specify an address, port to join"

-- GroupsCommand.Add and Remove
check_ips : (String → List String → Rpc) → String → String → Checked
check_ips call name ips =
    if str_eq name ""
    then give_up "Please specify a group name"
    else if str_eq ips ""
    then give_up "Please specify at least one IP address"
    else Checked.request (call name (split_at b',' ips))

-- GroupsCommand.Assign and Unassign
check_assign : (String → String → String → Rpc) → String → String → String → Checked
check_assign call name node iface =
    if str_eq name ""
    then give_up "Please specify a group name"
    else if str_eq node ""
    then give_up "Please specify the node hostname"
    else if str_eq iface ""
    then give_up "Please specify ame network interface"
    else Checked.request (call name node iface)

-- GroupsCommand.Run, for an action
check_group : String → String → String → String → String → Checked
unfolding check_ips check_assign
check_group action name ips node iface =
    if str_eq action "new"
    then Checked.request (Rpc.new_group name)
    else if str_eq action "delete"
    then if str_eq name ""
      then give_up "Please specify a group name"
      else Checked.request (Rpc.delete_group name)
    else if str_eq action "add"
    then check_ips Rpc.ip_add name ips
    else if str_eq action "remove"
    then check_ips Rpc.ip_remove name ips
    else if str_eq action "assign"
    then check_assign Rpc.assign name node iface
    else if str_eq action "unassign"
    then check_assign Rpc.unassign name node iface
    else give_up "Unknown action provided."

-- ConfigCommand.Run
check_config : List String → Checked
check_config [] = give_up "Please specify a config key to update"
check_config (key ∷ []) = give_up "Please specify a new config value"
check_config (key ∷ val ∷ more) = Checked.request (Rpc.set_config key val)

check_first : (String → Rpc) → String → List String → Checked
check_first call m [] = give_up m
check_first call m (a ∷ more) = Checked.request (call a)

-- RemoveCommand.Run
check_remove : List String → Checked
unfolding check_first
check_remove args = check_first Rpc.remove "Please specify a node hostname to remove" args

-- PromoteCommand.Run
check_promote : List String → Checked
unfolding check_first
check_promote args = check_first Rpc.promote "Please specify a node to promote!" args

-- NetworkCommand.Run
check_network : List String → Checked
check_network [] = give_up "Unknown action provided."
check_network (a ∷ more) =
    if str_eq a "resync"
    then Checked.request (Rpc.network "resync")
    else give_up "Unknown action provided."

unfoldable pub check : Net → Invocation → Checked
unfolding check_create check_cert check_join check_group check_config check_remove check_promote
    check_network
check net Invocation.leave_command = Checked.request Rpc.leave
check net Invocation.token_command = Checked.request Rpc.new_token
check net (Invocation.remove_command args) = check_remove args
check net (Invocation.promote_command args) = check_promote args
check net (Invocation.cert_command args) = check_cert net args
check net (Invocation.create_command args) = check_create net args
check net (Invocation.config_command args) = check_config args
check net (Invocation.network_command args) = check_network args
check net (Invocation.join_command own port token args) = check_join net own port token args
check net (Invocation.group_command action name ips node iface) =
    check_group action name ips node iface
