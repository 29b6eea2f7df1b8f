-- ===== src/Groups/Addresses.antt =====
-- A floating address stands in at most one group, and there once: what adding and removing keep.
use mathlib.Core.List.{append-nil, append_assoc}
use pulseha.Base.{
  ℕ, zero, suc, ◌+◌, ◌≤◌, String, List, [], ◌∷◌, ◌++◌, Bool, true, false, none, some, str_eq,
  eq_iff, ◌≡◌, ◌≢◌, refl, sym, ap, ◌∙◌, arith, if◌then◌else◌, Option-cases, Bool-cases, inl, inr,
  any,
}
use pulseha.GoMap.{lookup, insert, get, put}
use pulseha.GoMap.Laws.{lookup-insert}
use pulseha.Config.{Config, Error}
use pulseha.Groups.{
  Net, slice_at, group_exist, group_ip_exist_all, in_group, valid_ip_address, add_ips, group_ip_add,
  remove_ip, remove_at, index_of,
}

abbrev Groups : Type 0
Groups = List (String × List String)

-- How often an address stands in a list, and in all groups together.
unfoldable pub count : String → List String → ℕ
count x [] = 0
count x (y ∷ ys) = (if str_eq x y then 1 else 0) + count x ys

unfoldable pub count_all : String → Groups → ℕ
unfolding count
count_all x [] = 0
count_all x ((name, ips) ∷ m) = count x ips + count_all x m

-- No address stands in two groups, or twice in one.
abbrev pub UniqueIps : Config → Type 0
UniqueIps c = (x : String) → count_all x c.groups.entries ≤ 1

count-append : (x : String) (xs ys : List String) → count x (xs ++ ys) ≡ count x xs + count x ys
unfolding count
count-append x [] ys = omega arith
count-append x (y ∷ xs) ys = omega (arith, count-append x xs ys)

count_absent : (x : String) (ys : List String) → any (str_eq x) ys ≡ false → count x ys ≡ 0
unfolding count
count_absent x [] h = refl
count_absent x (y ∷ ys) h = ground (arith, count_absent x ys)

count_all_absent : (x : String) (m : Groups) → any (in_group x) m ≡ false → count_all x m ≡ 0
unfolding count_all
count_all_absent x [] h = refl
count_all_absent x ((name, ips) ∷ m) h = ground (arith, count_absent x ips, count_all_absent x m)

-- Writing the list of a group that exists changes the count by what the lists differ in.
pub count_all-insert :
    (x name : String) (old new : List String) (m : Groups)
    → lookup name m ≡ some old
    → count_all x (insert name new m) + count x old ≡ count_all x m + count x new
unfolding lookup insert count_all
count_all-insert x name old new [] h = cc
count_all-insert x name old new ((g, ips) ∷ m) h =
    ground (arith, count_all-insert x name old new m, eq_iff g name)

pub count_all-insert_absent :
    (x name : String) (new : List String) (m : Groups)
    → lookup name m ≡ none
    → count_all x (insert name new m) ≡ count_all x m + count x new
unfolding lookup insert count_all
count_all-insert_absent x name new [] h = ground arith
count_all-insert_absent x name new ((g, ips) ∷ m) h =
    ground (arith, count_all-insert_absent x name new m, eq_iff g name)

count-remove_at :
    (x y : String) (ys : List String) (i : ℕ)
    → index_of y ys ≡ some i
    → count x (remove_at i ys) + (if str_eq x y then 1 else 0) ≡ count x ys
unfolding index_of count
count-remove_at x y [] i h = cc
count-remove_at x y (z ∷ zs) zero h = ground (arith, eq_iff z y)
count-remove_at x y (z ∷ zs) (suc i) h = ground (arith, count-remove_at x y zs i)

-- What adding addresses to the group `name` with the list `old` leaves, on every branch: an error may
-- come after some of them were added.
pub record IsIpAdd (c : Config) (name : String) (old ips : List String) (r : Config × Error)
    : Type 0 where
  pub unique : UniqueIps c → UniqueIps r.0
  pub done : List String
  pub left : List String
  pub split : ips ≡ done ++ left
  pub finished : r.1 ≡ none → left ≡ []
  pub stored : get r.0.groups name ≡ some (old ++ done)
  pub others : (g : String) → g ≢ name → get r.0.groups g ≡ get c.groups g
  pub nodes_kept : r.0.nodes ≡ c.nodes
  pub pulse_kept : r.0.pulse ≡ c.pulse

abbrev with_group : Config → String → List String → Config
with_group c name ips = record c { groups = put c.groups name ips }

unique-with_group :
    (c : Config) (name ip : String) (old : List String)
    → get c.groups name ≡ some old
    → group_ip_exist_all c ip ≡ false
    → UniqueIps c
    → UniqueIps (with_group c name (old ++ ip ∷ []))
unfolding count
unique-with_group c name ip old e new u x = ground (
  arith,
  count_all-insert x name old (old ++ ip ∷ []) c.groups.entries e,
  count-append x old (ip ∷ []),
  count_all_absent ip c.groups.entries new,
  u x,
  eq_iff x ip,
)

get-with_group :
    (c : Config) (name g : String) (ips : List String)
    → get (with_group c name ips).groups g ≡ (if str_eq name g then some ips else get c.groups g)
get-with_group c name g ips = lookup-insert name g ips c.groups.entries

slice_at-get :
    (c : Config) (name : String) (old : List String)
    → get c.groups name ≡ some old
    → slice_at c.groups name ≡ old
unfolding slice_at
slice_at-get c name old h = rw (h, slice_at) refl

nothing_added :
    (c : Config) (name : String) (old ips : List String) (e : String)
    → get c.groups name ≡ some old
    → IsIpAdd c name old ips (c, some e)
nothing_added c name old ips e h = record {
  unique = λ u. u;
  done = [];
  left = ips;
  split = refl;
  finished = λ n. cc;
  stored = h ∙ ap some (sym (append-nil old));
  others = λ g apart. refl;
  nodes_kept = refl;
  pulse_kept = refl;
}

module _ (net : Net) where
  add_ips-IsIpAdd :
      (ips : List String) (c : Config) (name : String) (old : List String)
      → get c.groups name ≡ some old
      → IsIpAdd c name old ips (add_ips net c name ips)
  unfolding add_ips
  add_ips-IsIpAdd [] c name old h = record {
    unique = λ u. u;
    done = [];
    left = [];
    split = refl;
    finished = λ n. refl;
    stored = h ∙ ap some (sym (append-nil old));
    others = λ g apart. refl;
    nodes_kept = refl;
    pulse_kept = refl;
  }
  add_ips-IsIpAdd (ip ∷ ips) c name old h = elim (Option-cases (valid_ip_address net ip)) [
    | inr (e, bad) ↦ rw (bad, add_ips) (nothing_added c name old (ip ∷ ips) e h)
    | inl good ↦
        rw (good, add_ips)
          (elim (Bool-cases (group_ip_exist_all c ip)) [
            | inl taken ↦ rw (taken, add_ips) (nothing_added c name old (ip ∷ ips) _ h)
            | inr free ↦
                rw (free, slice_at-get c name old h, add_ips)
                  (more free (
                    add_ips-IsIpAdd ips (with_group c name (old ++ ip ∷ [])) name (old ++ ip ∷ []) (
                      get-with_group c name name (old ++ ip ∷ [])
                      ∙ ground (arith, eq_iff name name))))
          ])
  ]
    where
      more :
          {r : Config × Error}
          → group_ip_exist_all c ip ≡ false
          → IsIpAdd (with_group c name (old ++ ip ∷ [])) name (old ++ ip ∷ []) ips r
          → IsIpAdd c name old (ip ∷ ips) r
      more free a = record {
        unique = λ u. a.unique (unique-with_group c name ip old h free u);
        done = ip ∷ a.done;
        left = a.left;
        split = ap (λ l. ip ∷ l) a.split;
        finished = a.finished;
        stored = a.stored ∙ ap some (append_assoc old (ip ∷ []) a.done);
        others = λ g apart.
            a.others g apart
            ∙ get-with_group c name g (old ++ ip ∷ [])
            ∙ ground (arith, eq_iff name g);
        nodes_kept = a.nodes_kept;
        pulse_kept = a.pulse_kept;
      }

  -- Where every address stands in at most one group, and there once, groupIpAdd keeps it so, errors
  -- included.
  pub group_ip_add-UniqueIps :
      (c : Config) (active : Bool) (name : String) (ips : List String)
      → UniqueIps c
      → UniqueIps (group_ip_add net c active name ips).0
  unfolding group_ip_add
  group_ip_add-UniqueIps c false name ips u = u
  group_ip_add-UniqueIps c true name ips u = elim (Option-cases (get c.groups name)) [
    | inl absent ↦ rw (absent, group_ip_add) u
    | inr (old, present) ↦
        rw (present, group_ip_add) ((add_ips-IsIpAdd ips c name old present).unique u)
  ]

  -- groupIpAdd succeeds only with an active member and on a group that exists, and then the group's list
  -- is the old one followed by all the given addresses, with the other groups as they were.
  pub group_ip_add_success :
      (c : Config) (active : Bool) (name : String) (ips : List String)
      → (group_ip_add net c active name ips).1 ≡ none
      → (active ≡ true)
        × (group_exist c name ≡ true)
        × (get (group_ip_add net c active name ips).0.groups name
            ≡ some (slice_at c.groups name ++ ips))
        × ((g : String)
            → g ≢ name
            → get (group_ip_add net c active name ips).0.groups g ≡ get c.groups g)
  unfolding group_ip_add
  group_ip_add_success c false name ips h = cc
  group_ip_add_success c true name ips h = elim (Option-cases (get c.groups name)) [
    | inl absent ↦ absurd (ground (arith, absent))
    | inr (old, present) ↦
        let a = add_ips-IsIpAdd ips c name old present in
        rw (slice_at-get c name old present, present, group_ip_add)
          (refl, refl, all_stored old a (a.finished (ground (arith, present))), a.others)
  ]
    where
      all_stored :
          (old : List String) (a : IsIpAdd c name old ips (add_ips net c name ips))
          → a.left ≡ []
          → get (add_ips net c name ips).0.groups name ≡ some (old ++ ips)
      all_stored old a e =
          a.stored
          ∙ ap (λ l. some (old ++ l)) (sym (a.split ∙ ap (λ l. a.done ++ l) e ∙ append-nil a.done))

index_of-none : (x : String) (ys : List String) → index_of x ys ≡ none → count x ys ≡ 0
unfolding index_of count
index_of-none x [] h = refl
index_of-none x (y ∷ ys) h = ground (arith, index_of-none x ys, eq_iff x y, eq_iff y x)

count-le-all :
    (x name : String) (ips : List String) (m : Groups)
    → lookup name m ≡ some ips
    → count x ips ≤ count_all x m
unfolding lookup count_all
count-le-all x name ips [] h = cc
count-le-all x name ips ((g, l) ∷ m) h = ground (arith, count-le-all x name ips m)

-- What groupIpRemove's body does for one address of the group `name` with the list `old`.
pub record IsIpRemoved (c : Config) (name ip : String) (old : List String) (c' : Config)
    : Type 0 where
  pub unique : UniqueIps c'
  pub new : List String
  pub stored : get c'.groups name ≡ some new
  pub gone : count ip new ≡ 0
  pub same : (x : String) → x ≢ ip → count x new ≡ count x old
  pub others : (g : String) → g ≢ name → get c'.groups g ≡ get c.groups g
  pub nodes_kept : c'.nodes ≡ c.nodes
  pub pulse_kept : c'.pulse ≡ c.pulse

removed_at :
    (c : Config) (name ip : String) (old : List String) (i : ℕ)
    → UniqueIps c
    → get c.groups name ≡ some old
    → index_of ip old ≡ some i
    → IsIpRemoved c name ip old (with_group c name (remove_at i old))
removed_at c name ip old i u h e = record {
  unique = λ x. ground (
    arith,
    count_all-insert x name old (remove_at i old) c.groups.entries h,
    count-remove_at x ip old i e,
    u x,
  );
  new = remove_at i old;
  stored = get-with_group c name name (remove_at i old) ∙ ground (arith, eq_iff name name);
  gone = ground (
    arith,
    count-remove_at ip ip old i e,
    u ip,
    count-le-all ip name old c.groups.entries h,
    eq_iff ip ip,
  );
  same = λ x apart. ground (arith, count-remove_at x ip old i e, eq_iff x ip);
  others = λ g apart. get-with_group c name g (remove_at i old) ∙ ground (arith, eq_iff name g);
  nodes_kept = refl;
  pulse_kept = refl;
}

-- groupIpRemove's body on an existing group, where no address stands twice: afterwards the group lacks
-- the address and has all others as often as before, no other group changes, and no address stands
-- twice.
pub remove_ip-IsIpRemoved :
    (c : Config) (name ip : String) (old : List String)
    → UniqueIps c
    → get c.groups name ≡ some old
    → IsIpRemoved c name ip old (remove_ip c name ip).0
unfolding remove_ip count
remove_ip-IsIpRemoved c name ip [] u h =
    rw (slice_at-get c name [] h, remove_ip)
      (record {
        unique = u;
        new = [];
        stored = h;
        gone = refl;
        same = λ x apart. refl;
        others = λ g apart. refl;
        nodes_kept = refl;
        pulse_kept = refl;
      })
remove_ip-IsIpRemoved c name ip (x ∷ xs) u h =
    rw (slice_at-get c name (x ∷ xs) h, remove_ip)
      (elim (Option-cases (index_of ip (x ∷ xs))) [
        | inr (i, found) ↦ rw (found, remove_ip) (removed_at c name ip (x ∷ xs) i u h found)
        | inl missing ↦
            rw (missing, remove_ip)
              (record {
                unique = u;
                new = x ∷ xs;
                stored = h;
                gone = index_of-none ip (x ∷ xs) missing;
                same = λ x apart. refl;
                others = λ g apart. refl;
                nodes_kept = refl;
                pulse_kept = refl;
              })
      ])
