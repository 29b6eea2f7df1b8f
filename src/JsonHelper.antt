-- ===== src/JsonHelper.antt =====
-- packages/jsonHelper/jsonHelper.go: setting the field of a struct that has a given json tag. A struct
-- that `reflect` walks is the list of its tagged fields.
pub mod Fields
use pulseha.Base.{
  ℕ, String, List, [], ◌∷◌, Bool, true, false, Option, none, some, str_eq, if◌then◌else◌,
}
use pulseha.Base.Int.{ℤ}
use pulseha.Strconv.{parse_int, parse_bool}

pub data Field : Type 0 where
  text : String → Field
  flag : Bool → Field
  number : ℤ → Field
  -- any other kind
  other : Field

pub data Outcome : Type 0 where
  updated : List (String × Field) → Outcome
  invalid_value invalid_key : Outcome

abbrev int_field : ℤ × Bool → Option Field
int_field (z, true) = some (number z)
int_field (z, false) = none

-- `none` where the value does not parse, or the field has a kind that cannot be set
unfoldable pub set_field : Field → String → Option Field
set_field (text s) value = some (text value)
set_field (flag b) value = elim (parse_bool value) [ some b ↦ some (flag b) | none ↦ none ]
set_field (number z) value = int_field (parse_int value)
set_field other value = none

abbrev keep_field : String × Field → Outcome → Outcome
keep_field f (updated fs) = updated (f ∷ fs)
keep_field f invalid_value = invalid_value
keep_field f invalid_key = invalid_key

abbrev write_field : String → Option Field → List (String × Field) → Outcome
write_field tag none rest = invalid_value
write_field tag (some f) rest = updated ((tag, f) ∷ rest)

unfoldable pub set_struct_field_by_tag : String → String → List (String × Field) → Outcome
unfolding set_field
set_struct_field_by_tag tag value [] = invalid_key
set_struct_field_by_tag tag value ((t, f) ∷ rest) =
    let later = keep_field (t, f) (set_struct_field_by_tag tag value rest) in
    if str_eq t tag then write_field t (set_field f value) rest else later
