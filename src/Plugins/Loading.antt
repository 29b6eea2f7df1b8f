-- ===== src/Plugins/Loading.antt =====
-- What is loaded, and which plugin handles the network.
use pulseha.Base.{
  ℕ, ◌+◌, ◌≤◌, List, [], ◌∷◌, ◌++◌, Bool, false, Option, none, some, ◌≡◌, refl, ◌∙◌, sym, ap, arith,
  select, length, Option-cases, Bool-cases, inl, inr, length-append,
}
use pulseha.World.{Plugin, PluginType}
use pulseha.Member.{plugins_of, is_networking}
use pulseha.Network.{if_networking}
use pulseha.Plugins.{
  SharedObject, Loaded, networking_of, load_one, load_plugins, setup_plugins, with_symbol, typed,
}

-- How many networking plugins are loaded.
abbrev pub networking_count : Loaded → ℕ
networking_count l = length (plugins_of is_networking l.modules)

-- The networking plugin that is in use.
abbrev pub networking : Loaded → Option Plugin
networking l = networking_of l.modules

abbrev pub or_else : Option Plugin → Option Plugin → Option Plugin
or_else (some p) other = some p
or_else none other = other

abbrev as_networking : Option Plugin → Option Plugin
as_networking (some p) = some (typed PluginType.networking_plugin p)
as_networking none = none

-- The networking plugin of the first shared object that has one.
unfoldable pub first_offered : List SharedObject → Option Plugin
first_offered [] = none
first_offered (o ∷ os) =
    or_else (as_networking (o.symbol PluginType.networking_plugin)) (first_offered os)

select-append {ℓ} :
    {A : Type ℓ} (f : A → Bool) (xs ys : List A) → select f (xs ++ ys) ≡ select f xs ++ select f ys
select-append f [] ys = refl
select-append f (x ∷ xs) ys = elim (Bool-cases (f x)) [
  | inl hit ↦ rw (hit, select-append f xs ys) refl
  | inr miss ↦ rw (miss, select-append f xs ys) refl
]

count-none : (ps : List Plugin) → networking_of ps ≡ none → length (plugins_of is_networking ps) ≡ 0
count-none [] h = refl
count-none (p ∷ ps) h = ground (arith, count-none ps)

count-add :
    (ps : List Plugin) (q : Plugin)
    → length (plugins_of is_networking (ps ++ q ∷ []))
      ≡ length (plugins_of is_networking ps) + length (plugins_of is_networking (q ∷ []))
count-add ps q =
    ap length (select-append (λ (p : Plugin). is_networking p.plugin_type) ps (q ∷ []))
    ∙ length-append _ _

with_symbol-networking :
    (l : Loaded) (o : Option Plugin)
    → networking l ≡ none
    → networking_count (with_symbol PluginType.networking_plugin l o) ≤ 1
with_symbol-networking l none h = omega (arith, count-none l.modules h)
with_symbol-networking l (some p) h =
    omega
      (arith, count-none l.modules h, count-add l.modules (typed PluginType.networking_plugin p))

with_symbol-other :
    (kind : PluginType) (l : Loaded) (o : Option Plugin)
    → is_networking kind ≡ false
    → networking_count (with_symbol kind l o) ≡ networking_count l
with_symbol-other kind l none h = refl
with_symbol-other PluginType.networking_plugin l (some p) h = cc
with_symbol-other PluginType.general_plugin l (some p) h =
    omega (arith, count-add l.modules (typed PluginType.general_plugin p))
with_symbol-other PluginType.health_check_plugin l (some p) h =
    omega (arith, count-add l.modules (typed PluginType.health_check_plugin p))

load_one-bound :
    (kind : PluginType) (o : SharedObject) (l : Loaded)
    → networking_count l ≤ 1
    → networking_count (load_one kind o l) ≤ 1
unfolding load_one
load_one-bound PluginType.networking_plugin o l h = elim (Option-cases (networking l)) [
  | inl free ↦ rw free (with_symbol-networking l _ free)
  | inr (p, taken) ↦ rw taken h
]
load_one-bound PluginType.general_plugin o l h = omega (
  arith,
  with_symbol-other PluginType.general_plugin l (o.symbol PluginType.general_plugin) refl,
  h,
)
load_one-bound PluginType.health_check_plugin o l h = omega (
  arith,
  with_symbol-other PluginType.health_check_plugin l (o.symbol PluginType.health_check_plugin) refl,
  h,
)

load_plugins-bound :
    (kind : PluginType) (os : List SharedObject) (l : Loaded)
    → networking_count l ≤ 1
    → networking_count (load_plugins kind os l) ≤ 1
unfolding load_plugins
load_plugins-bound kind [] l h = h
load_plugins-bound kind (o ∷ os) l h =
    load_plugins-bound kind os (load_one kind o l) (load_one-bound kind o l h)

same_option : {A : Type 0} (o : Option A) → (elim o [ some b ↦ some b | none ↦ none ]) ≡ o
same_option none = refl
same_option (some b) = refl

networking_of-append :
    (ps : List Plugin) (q : Plugin)
    → networking_of (ps ++ q ∷ []) ≡ or_else (networking_of ps) (if_networking q)
networking_of-append [] q = same_option (if_networking q)
networking_of-append (p ∷ ps) q = ground (arith, networking_of-append ps q)

or_else-none : (o : Option Plugin) → or_else o none ≡ o
or_else-none none = refl
or_else-none (some p) = refl

or_else_assoc : (a b c : Option Plugin) → or_else (or_else a b) c ≡ or_else a (or_else b c)
or_else_assoc none b c = refl
or_else_assoc (some p) b c = refl

with_symbol-keeps :
    (kind : PluginType) (l : Loaded) (o : Option Plugin)
    → is_networking kind ≡ false
    → networking (with_symbol kind l o) ≡ networking l
with_symbol-keeps kind l none h = refl
with_symbol-keeps PluginType.networking_plugin l (some p) h = cc
with_symbol-keeps PluginType.general_plugin l (some p) h =
    networking_of-append l.modules (typed PluginType.general_plugin p) ∙ or_else-none (networking l)
with_symbol-keeps PluginType.health_check_plugin l (some p) h =
    networking_of-append l.modules (typed PluginType.health_check_plugin p)
    ∙ or_else-none (networking l)

with_symbol-chooses :
    (l : Loaded) (o : Option Plugin)
    → networking l ≡ none
    → networking (with_symbol PluginType.networking_plugin l o) ≡ as_networking o
with_symbol-chooses l none h = h
with_symbol-chooses l (some p) h =
    networking_of-append l.modules (typed PluginType.networking_plugin p)
    ∙ ap (λ a. or_else a (some (typed PluginType.networking_plugin p))) h

-- Types other than networking leave the choice alone.
load_plugins-other :
    (kind : PluginType) (os : List SharedObject) (l : Loaded)
    → is_networking kind ≡ false
    → networking (load_plugins kind os l) ≡ networking l
unfolding load_plugins load_one
load_plugins-other kind [] l h = refl
load_plugins-other PluginType.networking_plugin (o ∷ os) l h = cc
load_plugins-other PluginType.general_plugin (o ∷ os) l h =
    load_plugins-other PluginType.general_plugin os (load_one PluginType.general_plugin o l) h
    ∙ with_symbol-keeps PluginType.general_plugin l (o.symbol PluginType.general_plugin) h
load_plugins-other PluginType.health_check_plugin (o ∷ os) l h =
    load_plugins-other PluginType.health_check_plugin os
      (load_one PluginType.health_check_plugin o l) h
    ∙ with_symbol-keeps PluginType.health_check_plugin l (o.symbol PluginType.health_check_plugin) h

load_one-networking :
    (o : SharedObject) (l : Loaded)
    → networking (load_one PluginType.networking_plugin o l)
      ≡ or_else (networking l) (as_networking (o.symbol PluginType.networking_plugin))
unfolding load_one
load_one-networking o l = elim (Option-cases (networking l)) [
  | inl free ↦ rw free (with_symbol-chooses l (o.symbol PluginType.networking_plugin) free)
  | inr (p, taken) ↦ rw taken taken
]

load_plugins-networking :
    (os : List SharedObject) (l : Loaded)
    → networking (load_plugins PluginType.networking_plugin os l)
      ≡ or_else (networking l) (first_offered os)
unfolding load_plugins first_offered
load_plugins-networking [] l = sym (or_else-none (networking l))
load_plugins-networking (o ∷ os) l =
    load_plugins-networking os (load_one PluginType.networking_plugin o l)
    ∙ ap (λ a. or_else a (first_offered os)) (load_one-networking o l)
    ∙ or_else_assoc (networking l) (as_networking (o.symbol PluginType.networking_plugin))
        (first_offered os)

-- When at most one networking plugin is loaded, setup_plugins leaves at most one, however many shared
-- objects offer one: the plugin that was in use, or else that of the first object that has one.
pub setup_plugins-networking :
    (os : List SharedObject) (l : Loaded)
    → networking_count l ≤ 1
    → (networking_count (setup_plugins os l) ≤ 1)
      × (networking (setup_plugins os l) ≡ or_else (networking l) (first_offered os))
unfolding setup_plugins
setup_plugins-networking os l h =
    let checks = load_plugins PluginType.health_check_plugin os l in
    let network = load_plugins PluginType.networking_plugin os checks in
    (
      load_plugins-bound PluginType.general_plugin os network (
          load_plugins-bound PluginType.networking_plugin os checks
            (load_plugins-bound PluginType.health_check_plugin os l h)),
      load_plugins-other PluginType.general_plugin os network refl
          ∙ load_plugins-networking os checks
          ∙ ap (λ a. or_else a (first_offered os))
              (load_plugins-other PluginType.health_check_plugin os l refl),
    )
