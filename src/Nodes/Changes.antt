-- ===== src/Nodes/Changes.antt =====
-- Adding a node and deleting it.
use pulseha.Base.{
  String, List, [], ◌∷◌, true, false, none, str_eq, eq_iff, eq_refl, ◌≡◌, ◌≢◌, ◌↔◌, refl, arith,
  any, Bool-cases, inl, inr,
}
use pulseha.GoMap.{get, put, delete, lookup, insert, without}
use pulseha.GoMap.Laws.{lookup-insert, lookup-without}
use pulseha.Config.{Config, Node, Error}
use pulseha.Groups.{node_assigned_to_interface, node_assigns}
use pulseha.Groups.References.{IsAssignedSound}
use pulseha.Nodes.{node_add, node_delete, node_exists_by_uuid}

without-insert :
    (k : String) (n : Node) (m : List (String × Node))
    → lookup k m ≡ none
    → without k (insert k n m) ≡ m
unfolding lookup insert without
without-insert k n [] h = rw (eq_refl k) refl
without-insert k n ((j, v) ∷ m) h = elim (Bool-cases (str_eq j k)) [
  | inl hit ↦ absurd (cc)
  | inr miss ↦ rw (miss, miss, without-insert k n m (rw miss at h)) refl
]

-- A node that nodeAdd added under an unused id is what nodeDelete removes: the configuration is again
-- what it was.
pub node_delete-node_add :
    (c : Config) (uid : String) (n : Node)
    → node_exists_by_uuid c uid ≡ false
    → node_delete (node_add c uid n).0 uid ≡ (c, none)
unfolding node_delete node_add
node_delete-node_add c uid n unused =
    let absent : lookup uid c.nodes.entries ≡ none = ground (arith, unused) in
    let present : node_exists_by_uuid (record c { nodes = put c.nodes uid n }) uid ≡ true =
      ground (arith, lookup-insert uid uid n c.nodes.entries, eq_iff uid uid) in
    rw (unused, present, without-insert uid n c.nodes.entries absent) refl

-- What nodeDelete does.
pub record IsNodeDeletion (c : Config) (uid : String) (r : Config × Error) : Type 0 where
  pub succeeds : (r.1 ≡ none) ↔ (node_exists_by_uuid c uid ≡ true)
  pub gone : node_exists_by_uuid r.0 uid ≡ false
  pub others : (v : String) → v ≢ uid → get r.0.nodes v ≡ get c.nodes v
  pub groups : r.0.groups ≡ c.groups
  pub sound : IsAssignedSound c → IsAssignedSound r.0

fewer_assignments :
    (g uid : String) (m : List (String × Node))
    → any (node_assigns g) (without uid m) ≡ true
    → any (node_assigns g) m ≡ true
unfolding without
fewer_assignments g uid [] h = h
fewer_assignments g uid ((j, v) ∷ m) h = ground (arith, fewer_assignments g uid m)

sound-delete :
    (c : Config) (uid : String)
    → IsAssignedSound c
    → IsAssignedSound (record c { nodes = delete c.nodes uid })
unfolding node_assigned_to_interface
sound-delete c uid s g e = s g (fewer_assignments g uid c.nodes.entries e)

-- nodeDelete succeeds exactly on the id of a node; the id is unused afterwards, the other nodes and the
-- groups are as before, and if interfaces were assigned existing groups only, they still are.
pub node_delete-IsNodeDeletion :
    (c : Config) (uid : String) → IsNodeDeletion c uid (node_delete c uid)
unfolding node_delete
node_delete-IsNodeDeletion c uid = record {
  succeeds = ground arith;
  gone = ground (arith, lookup-without uid uid c.nodes.entries, eq_iff uid uid);
  others = λ v apart. ground (arith, lookup-without uid v c.nodes.entries, eq_iff uid v);
  groups = ground arith;
  sound = λ s. elim (Bool-cases (node_exists_by_uuid c uid)) [
    | inl known ↦ rw known (sound-delete c uid s)
    | inr unknown ↦ rw unknown s
  ];
}
