-- ===== src/Config/Lookups.antt =====
-- Go leaves open in which order `range` meets the nodes. Where hostnames are unique, what a lookup by
-- hostname finds does not depend on that order.
use pulseha.Base.{
  String, List, [], ◌∷◌, none, some, str_eq, ◌≡◌, inl, inr, sym, ap, ◌∙◌, arith, eq_iff, In,
  SameElements, Option-cases, Bool-cases, ◌≢◌,
}
use pulseha.Config.{Config, Node, find_by_hostname, get_node_by_hostname}

abbrev pub Entry : Type 0
Entry = String × Node

-- No two nodes of the map bear one hostname.
abbrev pub UniqueHostnames : List Entry → Type 0
UniqueHostnames xs = (d e : Entry) → In d xs → In e xs → d.1.hostname ≡ e.1.hostname → d ≡ e

pub find_sound :
    (h : String) (xs : List Entry) (e : Entry)
    → find_by_hostname h xs ≡ some e
    → In e xs × (e.1.hostname ≡ h)
find_sound h [] e eq = cc
find_sound h ((uid, n) ∷ xs) e eq = elim (Bool-cases (str_eq n.hostname h)) [
  | inl hit ↦ (inl (ground arith), ground (arith, eq_iff n.hostname h))
  | inr miss ↦ let (m, same) = find_sound h xs e (ground arith) in (inr m, same)
]

pub find_complete :
    (h : String) (xs : List Entry) (e : Entry)
    → In e xs
    → e.1.hostname ≡ h
    → find_by_hostname h xs ≢ none
find_complete h [] e m eq = elim m [ ]
find_complete h ((uid, n) ∷ xs) e (inl here) eq = ground (arith, eq_iff n.hostname h)
find_complete h ((uid, n) ∷ xs) e (inr there) eq = ground (arith, find_complete h xs e there eq)

-- In whatever order the nodes come, a lookup by hostname finds the same entry.
pub find_by_hostname_order :
    (h : String) (xs ys : List Entry)
    → UniqueHostnames xs
    → SameElements xs ys
    → find_by_hostname h xs ≡ find_by_hostname h ys
find_by_hostname_order h xs ys unique same = elim (Option-cases (find_by_hostname h xs)) [
  | inl missing ↦ elim (Option-cases (find_by_hostname h ys)) [
    | inl missing' ↦ missing ∙ sym missing'
    | inr (e, found) ↦
        let (m, host) = find_sound h ys e found in
        absurd (find_complete h xs e ((same e).1 m) host missing)
  ]
  | inr (d, found) ↦ elim (Option-cases (find_by_hostname h ys)) [
    | inl missing ↦
        let (m, host) = find_sound h xs d found in
        absurd (find_complete h ys d ((same d).0 m) host missing)
    | inr (e, found') ↦
        let (m, host) = find_sound h xs d found in
        let (m', host') = find_sound h ys e found' in
        found ∙ ap some (unique d e m ((same e).1 m') (host ∙ sym host')) ∙ sym found'
  ]
]

-- Where no two nodes bear one hostname, GetNodeByHostname answers alike on every order of the nodes.
pub get_node_by_hostname_order :
    (h : String) (c d : Config)
    → UniqueHostnames c.nodes.entries
    → SameElements c.nodes.entries d.nodes.entries
    → get_node_by_hostname c h ≡ get_node_by_hostname d h
unfolding get_node_by_hostname
get_node_by_hostname_order h c d unique same =
    rw (find_by_hostname_order h c.nodes.entries d.nodes.entries unique same)
