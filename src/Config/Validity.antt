-- ===== src/Config/Validity.antt =====
-- What a configuration that passes `validate` satisfies, and nothing else.
use pulseha.Base.{
  String, List, [], ◌∷◌, true, none, some, str_eq, ◌≡◌, ◌↔◌, ◌⊎◌, inl, inr, refl, arith, eq_iff, In,
  Bool-cases, length, ◌<◌,
}
use pulseha.Base.Int.{pos, ◌≤ℤ◌}
use pulseha.Config.{Config, Node, validate, has_hostname}

-- Some node bears the hostname.
abbrev pub KnownHost : String → List (String × Node) → Type 0
KnownHost h xs = (e : String × Node) × In e xs × (e.1.hostname ≡ h)

has_hostname_found :
    (h : String) (xs : List (String × Node))
    → has_hostname h xs ≡ true
    → (e : String × Node) × In e xs × (e.1.hostname ≡ h)
has_hostname_found h [] p = cc
has_hostname_found h ((uid, n) ∷ xs) p = elim (Bool-cases (str_eq n.hostname h)) [
  | inl hit ↦ ((uid, n), inl refl, (eq_iff n.hostname h).0 hit)
  | inr miss ↦ let (e, m, same) = has_hostname_found h xs (ground arith) in (e, inr m, same)
]

has_hostname_holds :
    (h : String) (xs : List (String × Node)) (e : String × Node)
    → In e xs
    → e.1.hostname ≡ h
    → has_hostname h xs ≡ true
has_hostname_holds h [] e m same = elim m [ ]
has_hostname_holds h ((uid, n) ∷ xs) e (inl here) same = ground (arith, eq_iff n.hostname h)
has_hostname_holds h ((uid, n) ∷ xs) e (inr there) same =
    ground (arith, has_hostname_holds h xs e there same)

pub record IsValid (hostname : String) (c : Config) : Type 0 where
  pub groups_made : c.groups.made ≡ true
  pub nodes_made : c.nodes.made ≡ true
  pub known : (c.nodes.entries ≡ []) ⊎ KnownHost hostname c.nodes.entries
  pub interval_ok : pos 1000 ≤ℤ c.pulse.fail_over_interval
  pub limit_ok : pos 1000 ≤ℤ c.pulse.fail_over_limit
  pub health_ok : pos 1000 ≤ℤ c.pulse.health_check_interval
  pub ordered : c.pulse.fail_over_interval ≤ℤ c.pulse.fail_over_limit

validate-IsValid : (h : String) (c : Config) → validate (some h) c ≡ none → IsValid h c
unfolding validate
validate-IsValid h c e = record {
  groups_made = ground arith;
  nodes_made = ground arith;
  known = known_host c.nodes.entries (λ n. ground (arith, n));
  interval_ok = ground arith;
  limit_ok = ground arith;
  health_ok = ground arith;
  ordered = ground arith;
}
  where
    known_host :
        (xs : List (String × Node))
        → (0 < length xs → has_hostname h xs ≡ true)
        → (xs ≡ []) ⊎ KnownHost h xs
    known_host [] k = inl refl
    known_host (x ∷ xs) k = inr (has_hostname_found h (x ∷ xs) (k (omega arith)))

IsValid-validate : (h : String) (c : Config) → IsValid h c → validate (some h) c ≡ none
unfolding validate
IsValid-validate h c v = elim v.known [
  | inl lone ↦ ground arith
  | inr (e, m, same) ↦ ground (arith, has_hostname_holds h c.nodes.entries e m same)
]

-- `Validate` succeeds exactly on the configurations with both sections, the machine among the nodes if
-- there are any, all intervals at least a second, and a limit not below the fail-over interval.
pub validate_iff : (h : String) (c : Config) → (validate (some h) c ≡ none) ↔ IsValid h c
validate_iff h c = (validate-IsValid h c, IsValid-validate h c)
