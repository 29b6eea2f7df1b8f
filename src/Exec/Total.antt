-- ===== src/Exec/Total.antt =====
-- Actions that return: from every state that satisfies the precondition, with the postcondition.
use pulseha.Base.{Bool, true, false, ◌≡◌, refl, if◌then◌else◌, List, [], ◌∷◌}
use pulseha.Exec.{Exec, returned, for_each, ◌>>=◌}
use pulseha.Exec.Keeps.{bind-returned}

abbrev pub Total {ℓ} : {W A : Type ℓ} → (W → Type ℓ) → (A → W → Type ℓ) → Exec W A → Type ℓ
Total {W = W} {A = A} Pre Post act =
    (s : W) → Pre s → (x : A) × ((act s).0 ≡ returned x) × Post x (act s).1

module _ {ℓ} {W A B : Type ℓ} (Pre : W → Type ℓ) (Mid : A → W → Type ℓ)
    (Post : B → W → Type ℓ) where
  pub bind-Total :
      (act : Exec W A) (next : A → Exec W B)
      → Total Pre Mid act
      → ((a : A) → Total (Mid a) Post (next a))
      → Total Pre Post (act >>= next)
  bind-Total act next one two s i =
      let (a, r, m) = one s i in rw (bind-returned act next s a r) (two a (act s).1 m)

module _ {ℓ} {W A : Type ℓ} (Inv : W → Type ℓ) where
  pub if-Total :
      (b : Bool) (act other : Exec W A)
      → Total Inv (λ _. Inv) act
      → Total Inv (λ _. Inv) other
      → Total Inv (λ _. Inv) (if b then act else other)
  if-Total true act other k n = k
  if-Total false act other k n = n

  pub for_each-Total :
      (xs : List A) (body : A → Exec W Unit)
      → ((x : A) → Total Inv (λ _. Inv) (body x))
      → Total Inv (λ _. Inv) (for_each xs body)
  unfolding for_each
  for_each-Total [] body k s i = (tt, refl, i)
  for_each-Total (x ∷ xs) body k s i =
      bind-Total Inv (λ _. Inv) (λ _. Inv) (body x) (λ _. for_each xs body) (k x)
        (λ _. for_each-Total xs body k) s i
