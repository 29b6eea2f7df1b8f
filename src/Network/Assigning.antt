-- ===== src/Network/Assigning.antt =====
-- Assigning a group to an interface keeps the assignments sound.
use mathlib.Core.Path.{subst}
use pulseha.Base.{
  String, List, [], ◌∷◌, ◌++◌, Bool, not, true, false, Option, none, some, any, str_eq, eq_iff, ◌≡◌,
  ◌⊎◌, ap, sym, inl, inr, refl, arith, if◌then◌else◌, Bool-cases, Option-cases,
}
use pulseha.Exec.{skip, deref, ◌>>=◌}
use pulseha.Exec.Keeps.{Keeps, bind-Keeps, if-Keeps}
use pulseha.GoMap.{GoMap, get, put, insert, lookup}
use pulseha.Config.{Config, Node, Error, get_local_node}
use pulseha.World.{World, Env, Daemon, LogLevel}
use pulseha.Member.{log}
use pulseha.Member.Frame.{Frame, Frame-refl, log-Frame}
use pulseha.Groups.{group_exist, node_assigned_to_interface, node_assigns, assigns, slice_at}
use pulseha.MemberList.{get_active_member}
use pulseha.Groups.References.{IsAssignedSound}
use pulseha.Network.{group_assign, assign_to, assign_local, set_ifaces, make_group_active}
use pulseha.Network.Frame.{make_group_active-Frame}

module _ {V : Type 0} (p : String × V → Bool) where
  -- What an insertion can make true is true of the value, where the key does not count.
  any-insert :
      ((k l : String) (v : V) → p (k, v) ≡ p (l, v))
      → (key : String) (val : V) (m : List (String × V)) → any p (insert key val m) ≡ true
      → (p (key, val) ≡ true) ⊎ (any p m ≡ true)
  unfolding insert
  any-insert same key val [] e = inl (ground arith)
  any-insert same key val ((other, old) ∷ m) e = elim (Bool-cases (str_eq other key)) [
    | inl hit ↦ ground (arith, same other key val)
    | inr miss ↦ ground (arith, any-insert same key val m)
  ]

  any-lookup :
      ((k l : String) (v : V) → p (k, v) ≡ p (l, v))
      → (key : String) (val : V) (m : List (String × V)) → lookup key m ≡ some val
      → p (key, val) ≡ true
      → any p m ≡ true
  unfolding lookup
  any-lookup same key val [] e h = ground arith
  any-lookup same key val ((other, old) ∷ m) e h = elim (Bool-cases (str_eq other key)) [
    | inl hit ↦ ground (arith, same other key val)
    | inr miss ↦ ground (arith, any-lookup same key val m)
  ]

any-snoc :
    (g h : String) (xs : List String)
    → any (str_eq h) (xs ++ g ∷ []) ≡ true
    → (any (str_eq h) xs ≡ true) ⊎ (h ≡ g)
any-snoc g h [] e = inr (ground (arith, eq_iff h g))
any-snoc g h (x ∷ xs) e = ground (arith, any-snoc g h xs)

slice_at-some :
    (m : GoMap (List String)) (iface : String) (l : List String)
    → get m iface ≡ some l
    → slice_at m iface ≡ l
unfolding slice_at
slice_at-some m iface l e = ap (λ (o : Option (List String)). elim o [ some l ↦ l | none ↦ [] ]) e

slice_at-none :
    (m : GoMap (List String)) (iface : String) → get m iface ≡ none → slice_at m iface ≡ []
unfolding slice_at
slice_at-none m iface e = ap (λ (o : Option (List String)). elim o [ some l ↦ l | none ↦ [] ]) e

slice-any :
    (g iface : String) (m : GoMap (List String))
    → any (str_eq g) (slice_at m iface) ≡ true
    → any (assigns g) m.entries ≡ true
slice-any g iface m e = elim (Option-cases (get m iface)) [
  | inl absent ↦ ground (arith, rw (slice_at-none m iface absent) at e)
  | inr (l, present) ↦
      any-lookup (assigns g) (λ k k' v. refl) iface l m.entries present
        (rw (slice_at-some m iface l present) at e)
]

-- The node `uid` has `g` on `iface` as well.
abbrev assigned : String → String → String → Node → Config → Config
assigned g uid iface n =
    set_ifaces uid (put n.ip_groups iface (slice_at n.ip_groups iface ++ g ∷ []))

-- The new node, written into the map.
abbrev rewritten : String → String → String → Node → Config → Config
rewritten g uid iface n c = record c {
  nodes =
      put c.nodes uid
        (record n { ip_groups = put n.ip_groups iface (slice_at n.ip_groups iface ++ g ∷ []) });
}

assigned-some :
    (g uid iface : String) (n : Node) (c : Config)
    → get c.nodes uid ≡ some n
    → assigned g uid iface n c ≡ rewritten g uid iface n c
assigned-some g uid iface n c e =
    ap
      (λ (o : Option Node). elim o [
        | some k ↦ record c {
          nodes = put c.nodes uid (record k {
            ip_groups = put n.ip_groups iface (slice_at n.ip_groups iface ++ g ∷ []);
          });
        }
        | none ↦ c
      ])
      e

-- What is assigned afterwards is `g`, or was assigned before.
rewritten-old :
    (g uid iface : String) (n : Node) (c : Config) (h : String)
    → get c.nodes uid ≡ some n
    → node_assigned_to_interface (rewritten g uid iface n c) h ≡ true
    → (node_assigned_to_interface c h ≡ true) ⊎ (h ≡ g)
unfolding node_assigned_to_interface
rewritten-old g uid iface n c h there e =
    elim (any-insert (node_assigns h) (λ k l v. refl) uid _ c.nodes.entries e) [
      | inr before ↦ inl before
      | inl on_node ↦
          elim (any-insert (assigns h) (λ k l v. refl) iface _ n.ip_groups.entries on_node) [
            | inr other ↦
                inl (any-lookup (node_assigns h) (λ k l v. refl) uid n c.nodes.entries there other)
            | inl here ↦ elim (any-snoc g h (slice_at n.ip_groups iface) here) [
              | inr new ↦ inr new
              | inl old ↦ inl (
                  any-lookup (node_assigns h) (λ k l v. refl) uid n c.nodes.entries there
                    (slice-any h iface n.ip_groups old))
            ]
          ]
    ]

assigned-IsAssignedSound :
    (g uid iface : String) (n : Node) (c : Config)
    → get c.nodes uid ≡ some n
    → group_exist c g ≡ true
    → IsAssignedSound c
    → IsAssignedSound (assigned g uid iface n c)
assigned-IsAssignedSound g uid iface n c there known sound =
    subst IsAssignedSound (sym (assigned-some g uid iface n c there)) λ h e.
      elim (rewritten-old g uid iface n c h there e) [
        | inl old ↦ sound h old
        | inr new ↦ subst (λ x. group_exist c x ≡ true) (sym new) known
      ]

abbrev Sound : World → Type 0
Sound w = IsAssignedSound w.config

Frame-Sound : (w w' : World) → Frame w w' → Sound w → Sound w'
Frame-Sound w w' f sound = rw f.config sound

if-Sound :
    (b : Bool) (act other : Daemon Error) (s : World)
    → (b ≡ true → Sound (act s).1)
    → (b ≡ false → Sound (other s).1)
    → Sound ((if b then act else other) s).1
if-Sound true act other s yes_case no_case = yes_case refl
if-Sound false act other s yes_case no_case = no_case refl

module _ (env : Env) where
  assign_local-Sound :
      (iface g active : String) (l : Node × Error) → Keeps Sound (assign_local env iface g active l)
  unfolding assign_local
  assign_local-Sound iface g active (n, some e) s sound = sound
  assign_local-Sound iface g active (n, none) s sound =
      bind-Keeps Sound (if str_eq active n.hostname then make_group_active env iface g else skip) _
        (if-Keeps Sound (str_eq active n.hostname) (make_group_active env iface g) skip
          (λ t h. Frame-Sound t _ (make_group_active-Frame env t iface g t (Frame-refl t)) h)
          (λ t h. h))
        (λ u t h. h) s sound

  assign_to-Sound :
      (g uid iface : String) (n : Node) (s : World)
      → get s.config.nodes uid ≡ some n
      → group_exist s.config g ≡ true
      → Sound s
      → Sound (assign_to env g uid iface n s).1
  unfolding assign_to
  assign_to-Sound g uid iface n s there known sound =
      if-Sound (any (str_eq g) (slice_at n.ip_groups iface)) _ _ s
        (λ already.
          bind-Keeps Sound (log env LogLevel.warning _) _
            (λ v h. Frame-Sound v _ (log-Frame env v LogLevel.warning _ v (Frame-refl v)) h)
            (λ u v h. h) s sound)
        (λ fresh.
          let next : World = record s { config = assigned g uid iface n s.config } in
          assign_local-Sound iface g (get_active_member next).0 (get_local_node next.config) next
            (assigned-IsAssignedSound g uid iface n s.config there known sound))

  found-Sound :
      (g uid iface : String) (o : Option Node) (s : World)
      → get s.config.nodes uid ≡ o
      → group_exist s.config g ≡ true
      → Sound s
      → Sound ((deref o >>= assign_to env g uid iface) s).1
  found-Sound g uid iface none s there known sound = sound
  found-Sound g uid iface (some n) s there known sound =
      assign_to-Sound g uid iface n s there known sound

-- Where interfaces are assigned existing groups only, that still holds after groupAssign, whether it
-- assigned the group, skipped it, refused it or panicked at an unknown node.
pub group_assign-IsAssignedSound :
    (env : Env) (g uid iface : String) (w : World)
    → IsAssignedSound w.config
    → IsAssignedSound (group_assign env g uid iface w).1.config
unfolding group_assign
group_assign-IsAssignedSound env g uid iface w sound =
    if-Sound (not (group_exist w.config g)) _ _ w (λ unknown. sound)
      λ known.
        if-Sound (not (env.interface_exist w.trace iface)) _ _ w (λ missing. sound)
          λ there.
            found-Sound env g uid iface (get w.config.nodes uid) w refl (ground (arith, known))
              sound
