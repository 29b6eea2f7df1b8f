-- ===== src/GoMap/Laws.antt =====
-- The laws of Go maps: what a read finds after a write, and that keys stay distinct.
use pulseha.Base.{
  In, String, List, [], ◌∷◌, Option, none, some, ◌≡◌, refl, ◌≢◌, str_eq, eq_iff, eq_refl,
  if◌then◌else◌, arith, Bool-cases, inl, inr, length, ◌≤◌, suc, true, false,
}
use pulseha.GoMap.{lookup, insert, without, Distinct, merge}

module _ {ℓ} {V : Type ℓ} where
  pub lookup-insert :
      (key other : String) (val : V) (m : List (String × V))
      → lookup other (insert key val m) ≡ (if str_eq key other then some val else lookup other m)
  unfolding lookup insert
  lookup-insert key other val [] = refl
  lookup-insert key other val ((head, old_val) ∷ m) =
      ground
        (arith, eq_iff key other, eq_iff head key, eq_iff head other, lookup-insert key other val m)

  pub lookup-without :
      (key other : String) (m : List (String × V))
      → lookup other (without key m) ≡ (if str_eq key other then none else lookup other m)
  unfolding lookup without
  lookup-without key other [] = ground arith
  lookup-without key other ((head, old_val) ∷ m) =
      ground
        (arith, eq_iff key other, eq_iff head key, eq_iff head other, lookup-without key other m)

  pub insert-Distinct :
      (key : String) (val : V) (m : List (String × V)) → Distinct m → Distinct (insert key val m)
  unfolding insert lookup
  insert-Distinct key val [] d = (refl, tt)
  insert-Distinct key val ((head, old_val) ∷ m) d = ground (
    arith,
    insert-Distinct key val m,
    lookup-insert key head val m,
    eq_iff key head,
    eq_iff head key,
  )

  pub without-Distinct :
      (key : String) (m : List (String × V)) → Distinct m → Distinct (without key m)
  unfolding without
  without-Distinct key [] d = tt
  without-Distinct key ((head, old_val) ∷ m) d =
      ground
        (arith, without-Distinct key m, lookup-without key head m, eq_iff key head, eq_iff head key)

  without_absent : (key : String) (m : List (String × V)) → lookup key m ≡ none → without key m ≡ m
  unfolding lookup without
  without_absent key [] h = refl
  without_absent key ((head, old_val) ∷ m) h = ground (arith, without_absent key m)

  -- Removing a key that is there makes the map one entry shorter.
  pub length-without :
      (key : String) (val : V) (m : List (String × V))
      → Distinct m
      → lookup key m ≡ some val
      → length m ≡ suc (length (without key m))
  unfolding lookup without
  length-without key val [] d h = ground arith
  length-without key val ((head, old_val) ∷ m) d h =
      ground (arith, length-without key val m, without_absent key m, eq_iff head key)

  pub merge-Distinct : (old new : List (String × V)) → Distinct old → Distinct (merge old new)
  unfolding merge
  merge-Distinct old [] d = d
  merge-Distinct old ((key, val) ∷ new) d =
      merge-Distinct (insert key val old) new (insert-Distinct key val old d)

  -- After the merge a key has its new value, and where the object lacks it the old one.
  pub lookup-merge :
      (other : String) (old new : List (String × V))
      → Distinct new
      → lookup other (merge old new)
        ≡ (elim (lookup other new) [ some val ↦ some val | none ↦ lookup other old ])
  unfolding merge lookup
  lookup-merge other old [] d = refl
  lookup-merge other old ((key, val) ∷ new) d = ground (
    arith,
    lookup-merge other (insert key val old) new d.1,
    lookup-insert key other val old,
    eq_iff key other,
  )

pub ruleset map_laws = (lookup-insert, lookup-without, eq_refl)

module _ {V : Type 0} where
  -- What a lookup finds is an entry.
  pub lookup-In :
      (key : String) (m : List (String × V)) (val : V)
      → lookup key m ≡ some val
      → (e : String × V) × In e m × (e.1 ≡ val)
  unfolding lookup
  lookup-In key [] val found = absurd cc
  lookup-In key ((head, head_val) ∷ m) val found = elim (Bool-cases (str_eq head key)) [
    | inl hit ↦ ((head, head_val), inl refl, ground (arith, hit, found))
    | inr miss ↦
        let (e, member, same) = lookup-In key m val (ground (arith, miss, found)) in
        (e, inr member, same)
  ]
