-- ===== src/Tests/Invocations.antt =====
-- Tests of the client: a daemon that promotes one node, and one that cannot be called.
use pulseha.Base.{[], ◌∷◌, true, none, some, ◌≡◌, ◌↔◌, refl, str_eq}
use pulseha.Groups.{Net, is_ipv6, is_ipv4}
use pulseha.Strconv.{parse_int}
use pulseha.Pulsectl.{Service, Invocation, Rpc, Answer, Line, Checked, check}
use pulseha.Pulsectl.Output.{execute}
use pulseha.Pulsectl.Requests.{IsSound, check-IsSound}
use pulseha.Endpoints.{is_port}
use pulseha.Pulsectl.Output.Exit.{IsPassed, execute_exit}

abbrev answer : Rpc → Answer
answer (Rpc.promote name) = Answer.answered (str_eq name "node2") "Promoted"
answer _ = Answer.call_failed "unavailable"

abbrev daemon : Service
daemon = record { dial = none; call = answer }

-- No text is an address.
abbrev nowhere : Net
nowhere = record { parse_cidr = λ s. none; parse_ip = λ s. none }

-- The call of leave fails, and the exit code is 0.
left_anyway : execute nowhere daemon (some Invocation.leave_command) ≡ (
  Line.output "PulseHA CLI connection error. Is the PulseHA service running?"
      ∷ Line.output "unavailable"
      ∷ [],
  0,
)
unfolding execute check
left_anyway = refl

-- The call of token fails in the same way, and the exit code is 1.
token_refused : (execute nowhere daemon (some Invocation.token_command)).1 ≡ 1
unfolding execute check
token_refused = refl

execute_exit_example :
    ((execute nowhere daemon (some (Invocation.promote_command ("node2" ∷ [])))).1 ≡ 0)
    ↔ IsPassed nowhere daemon (Invocation.promote_command ("node2" ∷ []))
execute_exit_example = execute_exit nowhere daemon (Invocation.promote_command ("node2" ∷ []))

-- Every text is an IPv4 address.
abbrev somewhere : Net
somewhere = record { parse_cidr = λ s. none; parse_ip = λ s. some true }

abbrev joining : Invocation
joining = Invocation.join_command "10.0.0.6" "8443" "secret" ("10.0.0.5" ∷ "8080" ∷ [])

join_checked :
    check somewhere joining
    ≡ Checked.request (Rpc.join "10.0.0.5" "8080" "10.0.0.6" "8443" "secret")
unfolding check is_port is_ipv6 is_ipv4 parse_int
join_checked = refl

check-IsSound_example : IsSound (Rpc.join "10.0.0.5" "8080" "10.0.0.6" "8443" "secret")
check-IsSound_example =
    check-IsSound somewhere joining (Rpc.join "10.0.0.5" "8080" "10.0.0.6" "8443" "secret")
      join_checked
