-- ===== src/Pulsectl/Output.antt =====
-- src/pulsectl: what the commands print, and their exit codes.
pub mod Exit
use pulseha.Base.{
  ℕ, String, List, [], ◌∷◌, Bool, true, false, not, Option, none, some, if◌then◌else◌, concat,
}
use pulseha.Config.{Error}
use pulseha.Groups.{Net}
use pulseha.Pulsectl.{Rpc, Answer, Service, Line, Invocation, Checked, check}

-- The commands whose failed call is an exit code of 1.
abbrev pub is_strict : Invocation → Bool
is_strict Invocation.token_command = true
is_strict (Invocation.cert_command args) = true
is_strict (Invocation.create_command args) = true
is_strict _ = false

-- The commands that connect before they check.
abbrev connects_first : Invocation → Bool
connects_first (Invocation.network_command args) = true
connects_first (Invocation.group_command action name ips node iface) = true
connects_first _ = false

-- The message on a connection that cannot be set up.
abbrev names_service : Invocation → Bool
names_service Invocation.leave_command = true
names_service (Invocation.remove_command args) = true
names_service (Invocation.network_command args) = true
names_service (Invocation.join_command own port token args) = true
names_service _ = false

-- What is printed, and the exit code.
abbrev pub Shown : Type 0
Shown = List Line × ℕ

-- The mark of an answer of no success; GroupsCommand.New has a blank before it.
abbrev cross : Rpc → String
cross (Rpc.new_group name) = "\n [x] "
cross _ = "\n[x] "

show : Bool → String → Answer → Shown
show true mark (Answer.call_failed e) =
    (Line.output "PulseHA CLI connection error. Is the PulseHA service running?" ∷ [], 1)
show false mark (Answer.call_failed e) = (
  Line.output "PulseHA CLI connection error. Is the PulseHA service running?" ∷ Line.output e ∷ [],
  0,
)
show strict mark (Answer.answered true m) =
    (Line.output (concat ("\n[✓] " ∷ m ∷ "\n" ∷ [])) ∷ [], 0)
show strict mark (Answer.answered false m) = (Line.output (concat (mark ∷ m ∷ "\n" ∷ [])) ∷ [], 1)

no_connection : Bool → String → Shown
no_connection named e = (
  Line.error (
        if named
        then "GRPC client connection error. Is the PulseHA service running?"
        else "GRPC client connection error")
      ∷ Line.error e
      ∷ [],
  1,
)

proceed : Service → Invocation → Error → Checked → Shown
unfolding show no_connection
proceed s i (some e) (Checked.request c) = no_connection (names_service i) e
proceed s i none (Checked.request c) = show (is_strict i) (cross c) (s.call c)
proceed s i none (Checked.rejected lines) = (lines, 1)
proceed s i (some e) (Checked.rejected lines) =
    if connects_first i then no_connection (names_service i) e else (lines, 1)

-- Run: `none` are flags that cannot be parsed, which package flag reports.
unfoldable pub execute : Net → Service → Option Invocation → Shown
unfolding proceed
execute net s none = ([], 1)
execute net s (some i) = proceed s i s.dial (check net i)
