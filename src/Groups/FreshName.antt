-- ===== src/Groups/FreshName.antt =====
-- genGroupName never gives the name of a group that exists.
use text.Mathlib.TextLemmas.{append_cancel_left}
use pulseha.Base.{
  ℕ, zero, suc, ◌+◌, ◌≤◌, ◌<◌, String, List, true, false, eq_iff, ◌≡◌, ◌≢◌, ◌⊎◌, refl, arith,
  length, Option-cases, Bool-cases, ◌==◌, ==_iff, inl, inr, is_some,
}
use pulseha.Strconv.{itoa}
use pulseha.Strconv.RoundTrip.{itoa_injective}
use pulseha.GoMap.{GoMap, lookup, without, Distinct, has, size}
use pulseha.GoMap.Laws.{lookup-without, without-Distinct, length-without}
use pulseha.Config.{Config}
use pulseha.Groups.{group_name, gen_loop, gen_group_name, group_exist}

group_name_injective : (m n : ℕ) → group_name m ≡ group_name n → m ≡ n
group_name_injective m n e = itoa_injective m n (append_cancel_left "group" (itoa m) (itoa n) e)

-- A map that holds the names from `i` up to `i + k`, without end, has more than `k` entries.
pigeonhole :
    (k i : ℕ) (m : List (String × List String))
    → Distinct m
    → ((j : ℕ) → i ≤ j → j < i + k → is_some (lookup (group_name j) m) ≡ true)
    → k ≤ length m
pigeonhole zero i m d h = omega arith
pigeonhole (suc k) i m d h = elim (Option-cases (lookup (group_name (i + k)) m)) [
  | inl absent ↦ ground (arith, h (i + k))
  | inr (v, present) ↦ omega (
    arith,
    length-without (group_name (i + k)) v m d present,
    pigeonhole k i (without (group_name (i + k)) m) (without-Distinct (group_name (i + k)) m d)
        fewer,
  )
]
  where
    fewer :
        (j : ℕ)
        → i ≤ j
        → j < i + k
        → is_some (lookup (group_name j) (without (group_name (i + k)) m)) ≡ true
    fewer j low high =
        rw (lookup-without (group_name (i + k)) (group_name j) m)
          (ground (arith, h j low (omega arith), eq_iff (group_name (i + k)) (group_name j), apart))
      where
        apart : group_name (i + k) ≢ group_name j
        apart e = absurd (omega (arith, group_name_injective (i + k) j e))

-- The loop stops at a free name, or has found every name that it tried taken.
gen_loop_cases :
    (m : GoMap (List String)) (left i : ℕ)
    → (has m (gen_loop m left i) ≡ false)
      ⊎ ((gen_loop m left i ≡ group_name (size m + 1))
          × ((j : ℕ) → i ≤ j → j < i + left → has m (group_name j) ≡ true))
unfolding gen_loop
gen_loop_cases m zero i = inr (refl, λ j low high. absurd (omega arith))
gen_loop_cases m (suc left) i = elim (Bool-cases (has m (group_name i))) [
  | inl taken ↦ rw taken (elim (gen_loop_cases m left (suc i)) [
    | inl free ↦ inl free
    | inr (last, all) ↦ inr (
      last,
      λ j low high. elim (Bool-cases (j == i)) [
        | inl here ↦ rw ((==_iff j i).0 here) taken
        | inr there ↦ all j (ground arith) (omega arith)
      ],
    )
  ])
  | inr free ↦ rw free (inl free)
]

-- On every configuration whose groups have distinct names, as all Go maps have, the generated name is
-- not that of an existing group.
pub gen_group_name_fresh :
    (c : Config) → Distinct c.groups.entries → group_exist c (gen_group_name c) ≡ false
unfolding gen_group_name
gen_group_name_fresh c d = elim (gen_loop_cases c.groups (size c.groups) 1) [
  | inl free ↦ free
  | inr (last, all) ↦ elim (Bool-cases (has c.groups (group_name (size c.groups + 1)))) [
    | inr free ↦ rw last free
    | inl taken ↦
        absurd (
          omega
            (arith, pigeonhole (suc (size c.groups)) 1 c.groups.entries d (all_taken all taken)))
  ]
]
  where
    all_taken :
        ((j : ℕ) → 1 ≤ j → j < 1 + size c.groups → has c.groups (group_name j) ≡ true)
        → has c.groups (group_name (size c.groups + 1)) ≡ true
        → (j : ℕ) → 1 ≤ j
        → j < 1 + suc (size c.groups)
        → is_some (lookup (group_name j) c.groups.entries) ≡ true
    all_taken all taken j low high = elim (Bool-cases (j == (size c.groups + 1))) [
      | inl here ↦ rw ((==_iff j (size c.groups + 1)).0 here) taken
      | inr there ↦ all j low (ground arith)
    ]
