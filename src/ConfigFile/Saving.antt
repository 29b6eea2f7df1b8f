-- ===== src/ConfigFile/Saving.antt =====
-- What Save writes and Load reads, and a value that UpdateValue sets.
use pulseha.Base.{
  ◌∙◌, ℕ, ◌<◌, ◌^◌, String, List, [], ◌∷◌, false, Option, none, some, str_eq, eq_refl, eq_iff, ◌≡◌,
  inl, inr, refl, sym, arith, ap, Option-cases, Bool-cases,
}
use pulseha.Base.Int.{pos}
use pulseha.Exec.{Outcome, returned}
use pulseha.GoMap.{GoMap, lookup, insert, merge, Distinct}
use pulseha.Config.{Config, Local, Error, validate}
use pulseha.Strconv.{itoa}
use pulseha.Strconv.RoundTrip.{parse_int-itoa}
use pulseha.JsonHelper.{updated, set_struct_field_by_tag, set_field}
use pulseha.World.{World, Env, holds}
use pulseha.ConfigFile.{
  save, save_valid, write_file, load, load_file, or_exit, decode, decode_map, update_value,
  store_fields, check_and_save, local_fields,
}

module _ {ℓ} {V : Type ℓ} where
  insert_same :
      (k : String) (v : V) (m : List (String × V)) → lookup k m ≡ some v → insert k v m ≡ m
  unfolding lookup insert
  insert_same k v [] h = cc
  insert_same k v ((j, w) ∷ m) h = elim (Bool-cases (str_eq j k)) [
    | inl hit ↦ let same : w ≡ v = ground (arith, rw hit at h) in rw (hit, same) refl
    | inr miss ↦ rw (miss, insert_same k v m (rw miss at h)) refl
  ]

  -- Every entry is already there.
  abbrev Holds : List (String × V) → List (String × V) → Type ℓ
  Holds old [] = Unit
  Holds old ((k, v) ∷ new) = (lookup k old ≡ some v) × Holds old new

  merge_same : (old new : List (String × V)) → Holds old new → merge old new ≡ old
  unfolding merge
  merge_same old [] h = refl
  merge_same old ((k, v) ∷ new) (h, hs) = rw (insert_same k v old h) (merge_same old new hs)

  differs :
      (k j : String) (w : V) (old : List (String × V))
      → lookup k old ≡ none
      → lookup j old ≡ some w
      → str_eq k j ≡ false
  differs k j w old absent there = elim (Bool-cases (str_eq k j)) [
    | inl same ↦
        let key : k ≡ j = (eq_iff k j).0 same in
        let found : lookup k old ≡ some w = rw key there in absurd (cc)
    | inr apart ↦ apart
  ]

  Holds-cons :
      (k : String) (v : V) (old new : List (String × V))
      → lookup k old ≡ none
      → Holds old new
      → Holds ((k, v) ∷ old) new
  unfolding lookup
  Holds-cons k v old [] absent h = tt
  Holds-cons k v old ((j, w) ∷ new) absent (h, hs) =
      let apart : str_eq k j ≡ false = differs k j w old absent h in
      (rw apart h, Holds-cons k v old new absent hs)

  Holds-refl : (m : List (String × V)) → Distinct m → Holds m m
  unfolding lookup
  Holds-refl [] d = tt
  Holds-refl ((k, v) ∷ m) (absent, d) =
      (rw (eq_refl k) refl, Holds-cons k v m m absent (Holds-refl m d))

  merge_self : (m : List (String × V)) → Distinct m → merge m m ≡ m
  merge_self m d = merge_same m m (Holds-refl m d)

pub decode_map_self : {V : Type 0} (m : GoMap V) → Distinct m.entries → decode_map m m ≡ m
decode_map_self m d = elim (Bool-cases m.made) [
  | inl made ↦ rw (made, merge_self m.entries d) refl
  | inr nil ↦ rw nil refl
]

-- What Save does: the result with the state left.
pub record IsSaving (h : Option String) (w : World) (r : Outcome Error × World) : Type 0 where
  pub memory : r.1.config ≡ w.config
  pub members : r.1.members ≡ w.members
  pub returns : (e : Error) × (r.0 ≡ returned e)
  pub written : r.0 ≡ returned none → (r.1.file ≡ holds w.config) × (validate h w.config ≡ none)
  pub refused :
      (e : String) → validate h w.config ≡ some e → (r.0 ≡ returned (some e)) × (r.1.file ≡ w.file)

-- Save returns; it keeps the configuration in memory and the list; without an error the file holds the
-- configuration, which is a valid one; and where the configuration is invalid, Save returns the error of the
-- validation and the file is as it was.
pub save-IsSaving : (env : Env) (w : World) → IsSaving (env.hostname w.trace) w (save env w)
unfolding save save_valid write_file
save-IsSaving env w = elim (Option-cases (validate (env.hostname w.trace) w.config)) [
  | inl valid ↦ (elim (Bool-cases (env.can_write w.trace)) [
    | inl able ↦
        rw (valid, able)
          (record {
            memory = refl;
            members = refl;
            returns = (none, refl);
            written = λ _. (refl, valid);
            refused = λ e h. absurd cc;
          })
    | inr unable ↦
        rw (valid, unable)
          (record {
            memory = refl;
            members = refl;
            returns = (some _, refl);
            written = λ h. cc;
            refused = λ e h. absurd cc;
          })
  ])
  | inr (e, invalid) ↦ rw invalid (record {
    memory = refl;
    members = refl;
    returns = (some e, refl);
    written = λ h. cc;
    refused = λ d h. (ap returned (sym invalid ∙ h), refl);
  })
]

check_and_save-memory :
    (env : Env) (e : Error) (w : World) → (check_and_save env e w).1.config ≡ w.config
unfolding check_and_save
check_and_save-memory env (some e) w = refl
check_and_save-memory env none w = (save-IsSaving env w).memory

store_fields-memory :
    (env : Env) (l : Local) (w : World)
    → (store_fields env (updated (local_fields l)) w).1.config ≡ record w.config { pulse = l }
unfolding store_fields lookup
store_fields-memory env l w =
    check_and_save-memory env (validate (env.hostname w.trace) (record w.config { pulse = l }))
      (record w { config = record w.config { pulse = l } })

set_limit :
    (l : Local) (n : ℕ)
    → n < 2 ^ 63
    → set_struct_field_by_tag "fo_limit" (itoa n) (local_fields l)
      ≡ updated (local_fields (record l { fail_over_limit = pos n }))
unfolding set_struct_field_by_tag set_field
set_limit l n small = rw (parse_int-itoa n small) refl

-- UpdateValue on "fo_limit" with a number below 2 ^ 63 in decimal sets the limit to it in memory,
-- whatever becomes of the validation and of the file.
pub update_value-limit :
    (env : Env) (w : World) (n : ℕ)
    → n < 2 ^ 63
    → (update_value env "fo_limit" (itoa n) w).1.config
      ≡ record w.config { pulse = record w.config.pulse { fail_over_limit = pos n } }
unfolding update_value
update_value-limit env w n small =
    rw (set_limit w.config.pulse n small)
      (store_fields-memory env (record w.config.pulse { fail_over_limit = pos n }) w)

-- Load of a file that holds what is in memory, whether it is valid or not.
pub load_same :
    (env : Env) (c : Config) (w : World)
    → w.config ≡ c
    → w.file ≡ holds c
    → ((load env w).1.config ≡ decode c c) × ((load env w).1.file ≡ holds c)
unfolding load load_file or_exit
load_same env c w memory file =
    elim (Option-cases (validate (env.hostname w.trace) (decode w.config c))) [
      | inl valid ↦ rw (file, valid) (ap (λ d. decode d c) memory, refl)
      | inr (e, invalid) ↦ rw (file, invalid) (ap (λ d. decode d c) memory, refl)
    ]

-- Load of a valid config file returns, and decodes it into the configuration.
pub load_stored :
    (env : Env) (c : Config) (w : World)
    → w.file ≡ holds c
    → validate (env.hostname w.trace) (decode w.config c) ≡ none
    → load env w ≡ (returned tt, record w { config = decode w.config c })
unfolding load load_file or_exit
load_stored env c w file valid = ap (λ f. load_file env f w) file ∙ rw valid refl
