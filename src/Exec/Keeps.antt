-- ===== src/Exec/Keeps.antt =====
-- Invariants of actions, one rule for each way to build one.
use pulseha.Base.{Bool, true, false, ◌≡◌, ◌≢◌, refl, if◌then◌else◌, List, [], ◌∷◌}
use pulseha.Exec.{Exec, Outcome, returned, panicked, exited, blocked, continue, for_each, ◌>>=◌}

-- Whether it returns or not, `m` leaves a state that satisfies `P` if it starts in one.
abbrev pub Keeps {ℓ} : {W A : Type ℓ} → (W → Type ℓ) → Exec W A → Type ℓ
Keeps {W = W} Inv act = (s : W) → Inv s → Inv (act s).1

module _ {ℓ} {W A B : Type ℓ} (Inv : W → Type ℓ) where
  pub continue-Keeps :
      (next : A → Exec W B) (r : Outcome A × W)
      → Inv r.1
      → ((a : A) (s : W) → Inv s → Inv (next a s).1)
      → Inv (continue next r).1
  continue-Keeps next (returned a, s) h k = k a s h
  continue-Keeps next (panicked, s) h k = h
  continue-Keeps next (exited, s) h k = h
  continue-Keeps next (blocked, s) h k = h

  pub bind-Keeps :
      (act : Exec W A) (next : A → Exec W B)
      → Keeps Inv act
      → ((a : A) → Keeps Inv (next a))
      → Keeps Inv (act >>= next)
  bind-Keeps act next km kf s h = continue-Keeps next (act s) (km s h) kf

module _ {ℓ} {W A B : Type ℓ} where
  -- After an action that returned, the rest runs from the state that it left.
  pub bind-returned :
      (act : Exec W A) (next : A → Exec W B) (s : W) (a : A)
      → (act s).0 ≡ returned a
      → (act >>= next) s ≡ next a (act s).1
  bind-returned act next s a h = rw (h, continue) refl

module _ {ℓ} {W A : Type ℓ} (Inv : W → Type ℓ) where
  pub if-Keeps :
      (b : Bool) (act n : Exec W A) → Keeps Inv act → Keeps Inv n → Keeps Inv (if b then act else n)
  if-Keeps true act n km kn = km
  if-Keeps false act n km kn = kn

module _ {ℓ} {W A : Type ℓ} (Inv : W → Type ℓ) where
  pub for_each-Keeps :
      (xs : List A) (body : A → Exec W Unit)
      → ((x : A) → Keeps Inv (body x))
      → Keeps Inv (for_each xs body)
  unfolding for_each
  for_each-Keeps [] body k s h = h
  for_each-Keeps (x ∷ xs) body k s h =
      bind-Keeps Inv (body x) (λ _. for_each xs body) (k x) (λ _. for_each-Keeps xs body k) s h

module _ {ℓ} {W A B : Type ℓ} where
  continue-never :
      (next : A → Exec W B) (x : B) (r : Outcome A × W)
      → ((a : A) (s : W) → (next a s).0 ≢ returned x)
      → (continue next r).0 ≢ returned x
  continue-never next x (returned a, s) k = k a s
  continue-never next x (panicked, s) k = λ e. cc
  continue-never next x (exited, s) k = λ e. cc
  continue-never next x (blocked, s) k = λ e. cc

  -- What the rest never returns the whole never returns.
  pub bind-never :
      (act : Exec W A) (next : A → Exec W B) (x : B) (w : W)
      → ((a : A) (s : W) → (next a s).0 ≢ returned x)
      → ((act >>= next) w).0 ≢ returned x
  bind-never act next x w k = continue-never next x (act w) k

-- What holds of the result and of the state whenever the action returns.
abbrev pub Returns {ℓ} : {W A : Type ℓ} → (A → W → Type ℓ) → Exec W A → Type ℓ
Returns {W = W} {A = A} Post act = (s : W) (x : A) → (act s).0 ≡ returned x → Post x (act s).1

module _ {ℓ} {W A B : Type ℓ} (Mid : A → W → Type ℓ) (Post : B → W → Type ℓ) where
  pub continue-Returns :
      (next : A → Exec W B) (r : Outcome A × W)
      → ((a : A) → r.0 ≡ returned a → Mid a r.1)
      → ((a : A) (s : W) → Mid a s → (x : B) → (next a s).0 ≡ returned x → Post x (next a s).1)
      → (x : B) → (continue next r).0 ≡ returned x
      → Post x (continue next r).1
  continue-Returns next (returned a, s) before after x e = after a s (before a refl) x e
  continue-Returns next (panicked, s) before after x e = absurd cc
  continue-Returns next (exited, s) before after x e = absurd cc
  continue-Returns next (blocked, s) before after x e = absurd cc

  pub bind-Returns :
      (act : Exec W A) (next : A → Exec W B)
      → Returns Mid act
      → ((a : A) (s : W) → Mid a s → (x : B) → (next a s).0 ≡ returned x → Post x (next a s).1)
      → Returns Post (act >>= next)
  bind-Returns act next before after s x e = continue-Returns next (act s) (before s) after x e

module _ {ℓ} {W A B : Type ℓ} (Post : B → W → Type ℓ) where
  abbrev Anywhere : A → W → Type ℓ
  Anywhere a w = Unit

  -- A postcondition that the rest establishes from any state.
  pub next-Returns :
      (act : Exec W A) (next : A → Exec W B)
      → ((a : A) → Returns Post (next a))
      → Returns Post (act >>= next)
  next-Returns act next after =
      bind-Returns Anywhere Post act next (λ s x e. tt) (λ a s m. after a s)

module _ {ℓ} {W B : Type ℓ} (Post : B → W → Type ℓ) where
  pub if-Returns :
      (b : Bool) (act other : Exec W B)
      → Returns Post act
      → Returns Post other
      → Returns Post (if b then act else other)
  if-Returns true act other k n = k
  if-Returns false act other k n = n
