-- ===== src/Pulsectl/Output/Exit.antt =====
-- The exit codes of the client.
use pulseha.Base.{
  Bool, true, false, String, none, some, ◌≡◌, ◌⊎◌, ◌↔◌, inl, inr, refl, if◌then◌else◌, List,
}
use pulseha.Config.{Error}
use pulseha.Groups.{Net}
use pulseha.Pulsectl.{Service, Invocation, Rpc, Answer, Checked, Line, check}
use pulseha.Pulsectl.Output.{
  is_strict, execute, proceed, show, no_connection, connects_first, cross, names_service,
}

-- The command was accepted, and the daemon answered that it was carried out, or the call of a command
-- that takes no notice failed.
abbrev pub IsPassed : Net → Service → Invocation → Type 0
IsPassed net s i =
    (s.dial ≡ none)
    × ((c : Rpc) × (check net i ≡ Checked.request c)
        × (((m : String) × (s.call c ≡ Answer.answered true m))
            ⊎ ((is_strict i ≡ false) × ((e : String) × (s.call c ≡ Answer.call_failed e)))))

abbrev IsCalm : Bool → Answer → Type 0
IsCalm strict a =
    ((m : String) × (a ≡ Answer.answered true m))
    ⊎ ((strict ≡ false) × ((e : String) × (a ≡ Answer.call_failed e)))

show-IsCalm :
    (strict : Bool) (mark : String) (a : Answer) → (show strict mark a).1 ≡ 0 → IsCalm strict a
unfolding show
show-IsCalm true mark (Answer.call_failed e) z = cc
show-IsCalm false mark (Answer.call_failed e) z = inr (refl, (e, refl))
show-IsCalm true mark (Answer.answered true m) z = inl (m, refl)
show-IsCalm false mark (Answer.answered true m) z = inl (m, refl)
show-IsCalm true mark (Answer.answered false m) z = cc
show-IsCalm false mark (Answer.answered false m) z = cc

show_zero :
    (strict : Bool) (mark : String) (a : Answer) → IsCalm strict a → (show strict mark a).1 ≡ 0
unfolding show
show_zero true mark a (inl (m, e)) = rw e refl
show_zero false mark a (inl (m, e)) = rw e refl
show_zero true mark a (inr (lax, (m, e))) = cc
show_zero false mark a (inr (lax, (m, e))) = rw e refl

refusal_late :
    (first named : Bool) (e : String) (lines : List Line)
    → ¬ ((if first then no_connection named e else (lines, 1)).1 ≡ 0)
unfolding no_connection
refusal_late true named e lines z = cc
refusal_late false named e lines z = cc

proceed-IsPassed :
    (net : Net) (s : Service) (i : Invocation) (d : Error) (k : Checked)
    → s.dial ≡ d
    → check net i ≡ k
    → (proceed s i d k).1 ≡ 0
    → IsPassed net s i
unfolding proceed no_connection
proceed-IsPassed net s i none (Checked.request c) d k z =
    (d, (c, k, show-IsCalm (is_strict i) (cross c) (s.call c) z))
proceed-IsPassed net s i none (Checked.rejected lines) d k z = cc
proceed-IsPassed net s i (some e) (Checked.request c) d k z = cc
proceed-IsPassed net s i (some e) (Checked.rejected lines) d k z =
    absurd (refusal_late (connects_first i) (names_service i) e lines z)

execute-IsPassed :
    (net : Net) (s : Service) (i : Invocation) → (execute net s (some i)).1 ≡ 0 → IsPassed net s i
unfolding execute
execute-IsPassed net s i z = proceed-IsPassed net s i s.dial (check net i) refl refl z

execute_zero :
    (net : Net) (s : Service) (i : Invocation) → IsPassed net s i → (execute net s (some i)).1 ≡ 0
unfolding execute proceed
execute_zero net s i (dialled, (c, checked, calm)) =
    rw dialled (rw checked (show_zero (is_strict i) (cross c) (s.call c) calm))

-- The exit code of an invocation is 0 exactly when the connection is set up, the arguments are accepted,
-- and either the daemon answers with success or the call fails for a command that takes no notice of it.
pub execute_exit :
    (net : Net) (s : Service) (i : Invocation) → ((execute net s (some i)).1 ≡ 0) ↔ IsPassed net s i
execute_exit net s i = (execute-IsPassed net s i, execute_zero net s i)
