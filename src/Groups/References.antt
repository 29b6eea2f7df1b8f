-- ===== src/Groups/References.antt =====
-- Which groups exist, and that an interface is assigned existing groups only.
use pulseha.Base.{
  String, List, [], true, false, none, some, str_eq, eq_iff, ◌≡◌, ◌↔◌, ◌≢◌, refl, ◌∙◌, arith,
  if◌then◌else◌, Option-cases, inl, inr,
}
use pulseha.GoMap.{GoMap, Distinct, get, put, delete}
use pulseha.GoMap.Laws.{lookup-insert, lookup-without}
use pulseha.Config.{Config, Error}
use pulseha.Groups.{
  group_exist, group_new, group_delete, gen_group_name, node_assigned_to_interface,
}
use pulseha.Groups.FreshName.{gen_group_name_fresh}
use pulseha.Groups.Addresses.{UniqueIps, count, count_all-insert, count_all-insert_absent}

-- Every group that an interface of a node is assigned is a group of the configuration.
abbrev pub IsAssignedSound : Config → Type 0
IsAssignedSound c = (g : String) → node_assigned_to_interface c g ≡ true → group_exist c g ≡ true

-- What groupDelete does to the group `name`.
pub record IsDeletion (c : Config) (name : String) (r : Config × Error) : Type 0 where
  pub succeeds :
      (r.1 ≡ none) ↔ ((group_exist c name ≡ true) × (node_assigned_to_interface c name ≡ false))
  pub gone : r.1 ≡ none → group_exist r.0 name ≡ false
  pub others : (g : String) → g ≢ name → get r.0.groups g ≡ get c.groups g
  pub refused : r.1 ≢ none → r.0 ≡ c
  pub sound : IsAssignedSound r.0

same_nodes :
    (c : Config) (m : GoMap (List String)) (g : String)
    → node_assigned_to_interface (record c { groups = m }) g ≡ node_assigned_to_interface c g
unfolding node_assigned_to_interface
same_nodes c m g = refl

-- Where interfaces are assigned existing groups only, groupDelete succeeds exactly on a group that exists
-- and that no interface is assigned, and then the group is gone; every other group is as before, an error
-- changes nothing, and assignments still name existing groups only.
pub group_delete-IsDeletion :
    (c : Config) (name : String) → IsAssignedSound c → IsDeletion c name (group_delete c name)
unfolding group_delete
group_delete-IsDeletion c name s = record {
  succeeds = ground arith;
  gone = λ e. ground (arith, lookup-without name name c.groups.entries, eq_iff name name);
  others = λ g apart. ground (arith, lookup-without name g c.groups.entries, eq_iff name g);
  refused = λ e. ground arith;
  sound = λ g e. still_there g e;
}
  where
    still_there :
        (g : String)
        → node_assigned_to_interface (group_delete c name).0 g ≡ true
        → group_exist (group_delete c name).0 g ≡ true
    still_there g e = ground (
      arith,
      same_nodes c (delete c.groups name) g,
      s g,
      lookup-without name g c.groups.entries,
      eq_iff name g,
    )

-- What groupNew leaves, for the name that it was given: `r` is the new configuration and the name used.
pub record IsCreation (c : Config) (given : String) (r : Config × String) : Type 0 where
  pub named : given ≢ "" → r.1 ≡ given
  pub generated : given ≡ "" → group_exist c r.1 ≡ false
  pub made_empty : get r.0.groups r.1 ≡ some []
  pub others : (g : String) → g ≢ r.1 → get r.0.groups g ≡ get c.groups g
  pub unique : UniqueIps c → UniqueIps r.0
  pub sound : IsAssignedSound c → IsAssignedSound r.0

unique-empty_group :
    (c : Config) (name : String)
    → UniqueIps c
    → UniqueIps (record c { groups = put c.groups name [] })
unfolding count
unique-empty_group c name u x = elim (Option-cases (get c.groups name)) [
  | inl absent ↦ omega (arith, count_all-insert_absent x name [] c.groups.entries absent, u x)
  | inr (old, present) ↦ omega (arith, count_all-insert x name old [] c.groups.entries present, u x)
]

sound-new_group :
    (c : Config) (name : String)
    → IsAssignedSound c
    → IsAssignedSound (record c { groups = put c.groups name [] })
sound-new_group c name s g e =
    ground
      (arith, same_nodes c (put c.groups name []) g, s g, lookup-insert name g [] c.groups.entries)

-- On groups with distinct names, as all Go maps have, groupNew uses the given name, or a fresh one when
-- it is empty; the group is there afterwards with no address, even if it existed before with some;
-- every other group is as before, and where no address stood twice, or assignments named existing
-- groups only, that still holds.
pub group_new-IsCreation :
    (c : Config) (given : String)
    → Distinct c.groups.entries
    → IsCreation c given (group_new c given)
unfolding group_new
group_new-IsCreation c given d = record {
  named = λ apart. ground (arith, eq_iff given "");
  generated = λ e. generated_fresh e;
  made_empty =
      lookup-insert chosen chosen [] c.groups.entries ∙ ground (arith, eq_iff chosen chosen);
  others = λ g apart. lookup-insert chosen g [] c.groups.entries ∙ ground (arith, eq_iff chosen g);
  unique = unique-empty_group c chosen;
  sound = sound-new_group c chosen;
}
  where
    chosen : String
    chosen = if str_eq given "" then gen_group_name c else given

    generated_fresh : given ≡ "" → group_exist c chosen ≡ false
    generated_fresh e = ground (arith, gen_group_name_fresh c d, eq_iff given "")
