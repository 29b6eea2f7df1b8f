-- ===== src/GoMap.antt =====
-- Go's `map[string]V`: an association list whose order is the order in which one `range` meets the
-- keys. A nil map reads like an empty one, and only a test `m == nil` tells them apart: `made`.
pub mod Laws
use pulseha.Base.{
  String, List, [], ◌∷◌, Option, none, some, Bool, true, false, ℕ, ◌≡◌, str_eq, if◌then◌else◌, map,
  length, is_some,
}

pub record GoMap {ℓ} (V : Type ℓ) : Type ℓ where
  pub made : Bool
  pub entries : List (String × V)

module _ {ℓ} {V : Type ℓ} where
  unfoldable pub lookup : String → List (String × V) → Option V
  lookup key [] = none
  lookup key ((other, val) ∷ m) = if str_eq other key then some val else lookup key m

  unfoldable pub insert : String → V → List (String × V) → List (String × V)
  insert key val [] = (key, val) ∷ []
  insert key val ((other, old_val) ∷ m) =
      if str_eq other key then (other, val) ∷ m else (other, old_val) ∷ insert key val m

  unfoldable pub without : String → List (String × V) → List (String × V)
  without key [] = []
  without key ((other, old_val) ∷ m) =
      let rest = without key m in if str_eq other key then rest else (other, old_val) ∷ rest

  -- map[string]V{}
  abbrev pub empty : GoMap V
  empty = record { made = true; entries = [] }

  -- v, ok := m[k]
  abbrev pub get : GoMap V → String → Option V
  get m key = lookup key m.entries

  -- m[k] = v
  abbrev pub put : GoMap V → String → V → GoMap V
  put m key val = record m { entries = insert key val m.entries }

  -- delete(m, k)
  abbrev pub delete : GoMap V → String → GoMap V
  delete m key = record m { entries = without key m.entries }

  -- len(m)
  abbrev pub size : GoMap V → ℕ
  size m = length m.entries

  abbrev pub has : GoMap V → String → Bool
  has m key = is_some (get m key)

  -- No key stands twice: what every Go map satisfies.
  abbrev pub Distinct : List (String × V) → Type ℓ
  Distinct [] = Unit
  Distinct ((key, val) ∷ m) = (lookup key m ≡ none) × Distinct m

  -- Decoding a JSON object into a map that has entries: the keys that the object has are written.
  unfoldable pub merge : List (String × V) → List (String × V) → List (String × V)
  merge old [] = old
  merge old ((key, val) ∷ new) = merge (insert key val old) new
