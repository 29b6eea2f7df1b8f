-- ===== src/Pulsectl/Entry.antt =====
-- cmd/pulsectl/main.go: the commands of the client, and how its arguments are read.
use pulseha.Base.{
  ℕ, String, List, [], ◌∷◌, ◌++◌, Bool, true, false, ◌||◌, none, some, ◌≡◌, refl, ap, str_eq,
  if◌then◌else◌, In, inl, inr, arith,
}
use pulseha.Config.{Error}

-- The keys of Commands
abbrev pub commands : List String
commands =
    "join" ∷ "create" ∷ "groups" ∷ "leave" ∷ "remove" ∷ "status" ∷ "promote" ∷ "cert" ∷ "token"
    ∷ "config" ∷ "network" ∷ "version" ∷ []

asks_version : List String → Bool
asks_version [] = false
asks_version (a ∷ rest) = if str_eq a "-v" || str_eq a "--version" then true else asks_version rest

-- The arguments, with the command version before them where a flag asks for it.
unfoldable pub with_version : List String → List String
unfolding asks_version
with_version args = if asks_version args then "version" ∷ args else args

-- Run of the package cli: the exit code and an error, for the commands and the arguments.
abbrev pub CliRun : Type 0
CliRun = List String → List String → ℕ × Error

exit_code : ℕ × Error → ℕ
exit_code (code, some e) = 1
exit_code (code, none) = code

unfoldable pub real_main : CliRun → List String → ℕ
unfolding exit_code
real_main run args = exit_code (run commands (with_version args))

asks_version-append : (before after : List String) → asks_version (before ++ ("-v" ∷ after)) ≡ true
unfolding asks_version
asks_version-append [] after = refl
asks_version-append (a ∷ before) after = ground (arith, asks_version-append before after)

-- A first argument that is a command's name is the command that the package cli runs, on the others.
abbrev pub IsDispatch : CliRun → (String → List String → ℕ) → Type 0
IsDispatch run command =
    (name : String) (rest : List String)
    → In name commands
    → run commands (name ∷ rest) ≡ (command name rest, none)

version_listed : In "version" commands
version_listed = inr (inr (inr (inr (inr (inr (inr (inr (inr (inr (inr (inl refl)))))))))))

-- With -v anywhere among its arguments the client is the command version on all of them.
pub real_main_version :
    (run : CliRun) (command : String → List String → ℕ)
    → IsDispatch run command
    → (before after : List String)
    → real_main run (before ++ ("-v" ∷ after)) ≡ command "version" (before ++ ("-v" ∷ after))
unfolding real_main with_version exit_code
real_main_version run command d before after =
    rw (asks_version-append before after)
      (ap exit_code (d "version" (before ++ ("-v" ∷ after)) version_listed))
