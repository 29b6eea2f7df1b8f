-- ===== src/Exec.antt =====
-- The effect of the daemon's code: a function of the state that returns, panics, or ends the process.
-- What was written to the state before a panic or an exit stays written.
pub mod Keeps
pub mod Total
use pulseha.Base.{Option, none, some, List, [], ◌∷◌, Bool, true, false}

pub data Outcome {ℓ} (A : Type ℓ) : Type ℓ where
  returned : A → Outcome A
  -- a run-time panic, as at a nil pointer or an index out of range
  panicked : Outcome A
  -- os.Exit, log.Fatal
  exited : Outcome A
  -- waits for ever for a mutex that it holds itself
  blocked : Outcome A

abbrev pub Exec {ℓ} : Type ℓ → Type ℓ → Type ℓ
Exec W A = W → Outcome A × W

module _ {ℓ} {W A : Type ℓ} where
  abbrev pub pure : A → Exec W A
  pure a s = (returned a, s)

  abbrev pub panic : Exec W A
  panic s = (panicked, s)

  abbrev pub exit : Exec W A
  exit s = (exited, s)

  abbrev pub gets : (W → A) → Exec W A
  gets next s = (returned (next s), s)

  -- Follow a pointer that may be nil.
  abbrev pub deref : Option A → Exec W A
  deref none = panic
  deref (some a) = pure a

module _ {ℓ} {W A B : Type ℓ} where
  abbrev pub continue : (A → Exec W B) → Outcome A × W → Outcome B × W
  continue next (returned a, s) = next a s
  continue next (panicked, s) = (panicked, s)
  continue next (exited, s) = (exited, s)
  continue next (blocked, s) = (blocked, s)

  infixl 5 ◌>>=◌ ◌>>◌
  abbrev pub ◌>>=◌ : Exec W A → (A → Exec W B) → Exec W B
  ◌>>=◌ act next s = continue next (act s)

  abbrev pub ◌>>◌ : Exec W A → Exec W B → Exec W B
  act >> n = act >>= λ _. n

module _ {ℓ} {W : Type ℓ} where
  abbrev pub modify : (W → W) → Exec W (Unit {ℓ})
  modify next s = (returned tt, next s)

  abbrev pub skip : Exec W (Unit {ℓ})
  skip s = (returned tt, s)

  -- for _, x := range xs { body }
  unfoldable pub for_each : {A : Type ℓ} → List A → (A → Exec W (Unit {ℓ})) → Exec W (Unit {ℓ})
  for_each [] body = skip
  for_each (x ∷ xs) body = body x >>= λ _. for_each xs body
