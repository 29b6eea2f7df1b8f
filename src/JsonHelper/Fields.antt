-- ===== src/JsonHelper/Fields.antt =====
-- What setting a field changes, and that it keeps the shape of the struct.
use pulseha.Base.{
  String, List, [], ◌∷◌, true, false, some, str_eq, ◌≡◌, refl, ap, ◌≢◌, arith, eq_iff, Bool-cases,
  Option-cases, inl, inr,
}
use pulseha.GoMap.{lookup}
use pulseha.JsonHelper.{
  Field, text, flag, number, other, Outcome, updated, invalid_value, invalid_key, keep_field,
  set_field, set_struct_field_by_tag,
}

-- Two fields of one kind.
abbrev pub SameKind : Field → Field → Type 0
SameKind (text _) (text _) = Unit
SameKind (flag _) (flag _) = Unit
SameKind (number _) (number _) = Unit
SameKind other other = Unit
SameKind _ _ = ⊥

-- Two structs of one type: the same tags in the same order, with fields of the same kinds.
abbrev pub SameShape : List (String × Field) → List (String × Field) → Type 0
SameShape [] [] = Unit
SameShape ((s, f) ∷ fs) ((t, g) ∷ gs) = (s ≡ t) × SameKind f g × SameShape fs gs
SameShape _ _ = ⊥

SameKind-refl : (f : Field) → SameKind f f
SameKind-refl (text s) = tt
SameKind-refl (flag b) = tt
SameKind-refl (number z) = tt
SameKind-refl other = tt

SameShape-refl : (fs : List (String × Field)) → SameShape fs fs
SameShape-refl [] = tt
SameShape-refl ((t, f) ∷ fs) = (refl, SameKind-refl f, SameShape-refl fs)

set_field-SameKind : (f g : Field) (value : String) → set_field f value ≡ some g → SameKind f g
unfolding set_field
set_field-SameKind (text s) g value h = ground arith
set_field-SameKind (flag b) g value h = ground arith
set_field-SameKind (number z) g value h = ground arith
set_field-SameKind other g value h = ground arith

-- What a successful update of the field `tag` makes of the fields.
pub record IsFieldUpdate (tag value : String) (fs gs : List (String × Field)) : Type 0 where
  pub shape : SameShape fs gs
  pub others : (t : String) → t ≢ tag → lookup t gs ≡ lookup t fs
  pub set :
      (f g : Field) × (lookup tag fs ≡ some f)
      × (lookup tag gs ≡ some g)
      × (set_field f value ≡ some g)

written : Outcome → List (String × Field)
written (updated fs) = fs
written invalid_value = []
written invalid_key = []

SameKind-shape :
    (t : String) (f g : Field) (fs : List (String × Field))
    → SameKind f g
    → SameShape ((t, f) ∷ fs) ((t, g) ∷ fs)
SameKind-shape t f g fs k = (refl, k, SameShape-refl fs)

-- The field of the tag is the first one.
first_field :
    (tag value t : String) (f g : Field) (fs : List (String × Field))
    → str_eq t tag ≡ true
    → set_field f value ≡ some g
    → IsFieldUpdate tag value ((t, f) ∷ fs) ((t, g) ∷ fs)
unfolding lookup
first_field tag value t f g fs hit good = record {
  shape = SameKind-shape t f g fs (set_field-SameKind f g value good);
  others = λ s other. ground (arith, eq_iff t tag, eq_iff t s, hit, other);
  set = (f, g, rw hit refl, rw hit refl, good);
}

-- The outcome of a later field, carried over the first one.
carried :
    (tag value t : String) (f : Field) (fs gs : List (String × Field)) (o : Outcome)
    → str_eq t tag ≡ false
    → ((hs : List (String × Field)) → o ≡ updated hs → IsFieldUpdate tag value fs hs)
    → keep_field (t, f) o ≡ updated gs
    → IsFieldUpdate tag value ((t, f) ∷ fs) gs
unfolding lookup written
carried tag value t f fs gs (updated hs) apart ih e =
    let u = ih hs refl in
    let same : (t, f) ∷ hs ≡ gs = ap written e in
    rw⁻¹ same (record {
      shape = (refl, SameKind-refl f, u.shape);
      others = λ s other. rw (u.others s other) refl;
      set = rw apart u.set;
    })
carried tag value t f fs gs invalid_value apart ih e = cc
carried tag value t f fs gs invalid_key apart ih e = cc

never : (gs : List (String × Field)) → invalid_value ≢ updated gs
never gs e = cc

-- A successful SetStructFieldByTag keeps the tags, their order and the kinds of the fields, and of the
-- values changes at most that of the tag, which becomes what the text parses to.
pub set_struct_field_by_tag-IsFieldUpdate :
    (tag value : String) (fs gs : List (String × Field))
    → set_struct_field_by_tag tag value fs ≡ updated gs
    → IsFieldUpdate tag value fs gs
unfolding set_struct_field_by_tag lookup written
set_struct_field_by_tag-IsFieldUpdate tag value [] gs e = cc
set_struct_field_by_tag-IsFieldUpdate tag value ((t, f) ∷ fs) gs e =
    elim (Bool-cases (str_eq t tag)) [
      | inl hit ↦ (elim (Option-cases (set_field f value)) [
        | inl bad ↦ absurd (never gs (rw (hit, bad) at e))
        | inr (g, good) ↦
            let same : (t, g) ∷ fs ≡ gs = ap written (rw (hit, good) at e) in
            rw⁻¹ same (first_field tag value t f g fs hit good)
      ])
      | inr miss ↦
          carried tag value t f fs gs _ miss
            (λ hs h. set_struct_field_by_tag-IsFieldUpdate tag value fs hs h) (rw miss at e)
    ]
