-- ===== src/Tests/Settings.antt =====
-- Tests of the configuration and of its file.
use pulseha.World.{World}
use pulseha.Network.{group_assign}
use pulseha.Network.Assigning.{group_assign-IsAssignedSound}
use pulseha.Base.{
  String, List, [], ◌∷◌, true, false, none, some, ◌≡◌, ◌↔◌, refl, arith, inl, inr, str_eq, eq_iff,
  Bool-cases,
}
use pulseha.Base.Int.{pos}
use pulseha.GoMap.{lookup, insert, Distinct}
use pulseha.Config.{validate}
use pulseha.Config.Validity.{IsValid, validate_iff}
use pulseha.ConfigFile.{save}
use pulseha.ConfigFile.Saving.{IsSaving, save-IsSaving}
use pulseha.JsonHelper.{Field, text, number, updated, set_field, set_struct_field_by_tag}
use pulseha.Nodes.{node_add, node_delete, node_exists_by_uuid}
use pulseha.Nodes.Changes.{node_delete-node_add}
use pulseha.Groups.{
  slice_at, valid_ip_address, node_assigned_to_interface, group_exist, gen_group_name, group_new,
  group_delete, group_ip_add,
}
use pulseha.Groups.FreshName.{gen_group_name_fresh}
use pulseha.Groups.Addresses.{UniqueIps, group_ip_add-UniqueIps, count_all, count}
use pulseha.Groups.References.{
  IsAssignedSound, IsDeletion, IsCreation, group_delete-IsDeletion, group_new-IsCreation,
}
use pulseha.World.{World, Status}
use pulseha.Tests.{node_b, pair, calm, daemon, net}

abbrev machine : World
machine = daemon Status.active Status.passive

validate_example : (validate (some "a") pair ≡ none) ↔ IsValid "a" pair
validate_example = validate_iff "a" pair

save_example : IsSaving (some "a") machine (save calm machine)
save_example = save-IsSaving calm machine

pair-Distinct : Distinct pair.groups.entries
unfolding lookup
pair-Distinct = (refl, (refl, tt))

abbrev two_fields : List (String × Field)
two_fields = ("fo_limit", number (pos 10000)) ∷ ("logging_level", text "info") ∷ []

abbrev quiet_fields : List (String × Field)
quiet_fields = ("fo_limit", number (pos 10000)) ∷ ("logging_level", text "warn") ∷ []

set_quiet : set_struct_field_by_tag "logging_level" "warn" two_fields ≡ updated quiet_fields
unfolding set_struct_field_by_tag set_field
set_quiet = refl

unused_id : node_exists_by_uuid pair "id-c" ≡ false
unfolding lookup
unused_id = refl

deleted_again : node_delete (node_add pair "id-c" node_b).0 "id-c" ≡ (pair, none)
deleted_again = node_delete-node_add pair "id-c" node_b unused_id

pair-UniqueIps : UniqueIps pair
unfolding count_all count
pair-UniqueIps x = elim (Bool-cases (str_eq x "10.1.0.1/24")) [
  | inl hit ↦ rw ((eq_iff x "10.1.0.1/24").0 hit) (omega arith)
  | inr miss ↦ rw miss (ground arith)
]

pair-IsAssignedSound : IsAssignedSound pair
unfolding node_assigned_to_interface lookup
pair-IsAssignedSound g e = elim (Bool-cases (str_eq g "group1")) [
  | inl hit ↦ rw ((eq_iff g "group1").0 hit) refl
  | inr miss ↦ absurd (ground (arith, rw miss at e))
]

gen_group_name_example : group_exist pair (gen_group_name pair) ≡ false
gen_group_name_example = gen_group_name_fresh pair pair-Distinct

group_new_example : IsCreation pair "" (group_new pair "")
group_new_example = group_new-IsCreation pair "" pair-Distinct

group_delete_example : IsDeletion pair "spare" (group_delete pair "spare")
group_delete_example = group_delete-IsDeletion pair "spare" pair-IsAssignedSound

group_ip_add-UniqueIps_example :
    UniqueIps (group_ip_add net pair true "spare" ("10.1.0.9/24" ∷ [])).0
group_ip_add-UniqueIps_example =
    group_ip_add-UniqueIps net pair true "spare" ("10.1.0.9/24" ∷ []) pair-UniqueIps

nine_added : (group_ip_add net pair true "spare" ("10.1.0.9/24" ∷ [])).1 ≡ none
unfolding group_ip_add valid_ip_address slice_at lookup insert
nine_added = refl

abbrev running : World
running = record machine { config = pair }

group_assign_example : IsAssignedSound (group_assign calm "spare" "id-b" "eth0" running).1.config
group_assign_example =
    group_assign-IsAssignedSound calm "spare" "id-b" "eth0" running pair-IsAssignedSound
