-- ===== src/Failover/Stage.antt =====
-- The states of a round of MonitorReceivedHCs before the passive member becomes active.
use pulseha.Base.{
  ℕ, String, List, [], ◌∷◌, Bool, true, false, none, some, str_eq, eq_iff, ◌≡◌, ◌≢◌, ◌⊎◌, inl, inr,
  refl, sym, ap, ◌∙◌, arith, ◌==◌, first, Bool-cases, Option-cases, In,
}
use pulseha.GoMap.Laws.{lookup-In}
use pulseha.Config.{Config, Node, get_local_node, cluster_check}
use pulseha.GoMap.{get}
use pulseha.World.{World, Member, Status}
use pulseha.Member.{set_status}
use pulseha.Member.Sending.{IsLinked}
use pulseha.MemberList.{
  find_in, find_member, is_active, is_passive, match_active, get_active_member,
}

-- The statuses of a member that no longer counts as the active one.
abbrev pub is_down : Status → Bool
is_down Status.suspicious = true
is_down Status.unavailable = true
is_down _ = false

-- Every member but `l` has the status it had, or was active and is down.
abbrev pub OthersDown : World → ℕ → World → Type 0
OthersDown w l s =
    (q : ℕ)
    → q ≢ l
    → ((s.heap q).status ≡ (w.heap q).status)
      ⊎ ((is_active (w.heap q).status ≡ true) × (is_down (s.heap q).status ≡ true))

-- The state on the way to a take-over by the passive member `l`.
pub record Stage (w : World) (l : ℕ) (s : World) : Type 0 where
  pub config : s.config ≡ w.config
  pub members : s.members ≡ w.members
  pub linked : IsLinked s
  pub hostnames : (q : ℕ) → (s.heap q).hostname ≡ (w.heap q).hostname
  pub own : is_passive (s.heap l).status ≡ true
  pub others : OthersDown w l s

pub local_In :
    (c : Config) (n : Node)
    → get_local_node c ≡ (n, none)
    → (e : String × Node) × In e c.nodes.entries × (e.1 ≡ n)
unfolding get_local_node
local_In c n local = elim (Bool-cases (cluster_check c)) [
  | inl joined ↦ elim (Option-cases (get c.nodes c.pulse.local_node)) [
    | inl missing ↦ absurd (ground (arith, joined, missing, local))
    | inr (m, found) ↦
        lookup-In c.pulse.local_node c.nodes.entries n
          (found ∙ ground (arith, joined, found, local))
  ]
  | inr alone ↦ absurd (ground (arith, alone, local))
]

first-active :
    (heap : ℕ → Member) (ps : List ℕ) (a : ℕ)
    → first (match_active heap) ps ≡ some a
    → is_active (heap a).status ≡ true
first-active heap [] a found = absurd cc
first-active heap (p ∷ ps) a found = elim (Bool-cases (is_active (heap p).status)) [
  | inl hit ↦ ground (arith, hit, found)
  | inr miss ↦ first-active heap ps a (ground (arith, miss, found))
]

pub get_active_member-active :
    (w : World) (a : ℕ) → (get_active_member w).1 ≡ some a → is_active (w.heap a).status ≡ true
unfolding get_active_member
get_active_member-active w a found = elim (Option-cases (first (match_active w.heap) w.members)) [
  | inl missing ↦ absurd (ground (arith, missing, found))
  | inr (b, hit) ↦ first-active w.heap w.members a (ground (arith, hit, found))
]

pub passive_not_active : (x : Status) → is_passive x ≡ true → is_active x ≡ false
passive_not_active Status.active e = cc
passive_not_active Status.leaving e = refl
passive_not_active Status.passive e = refl
passive_not_active Status.unavailable e = refl
passive_not_active Status.suspicious e = refl
passive_not_active Status.monitoring e = refl
passive_not_active Status.unconfigured e = refl

active_not_passive : (x : Status) → is_active x ≡ true → is_passive x ≡ false
active_not_passive Status.active e = refl
active_not_passive Status.leaving e = refl
active_not_passive Status.passive e = cc
active_not_passive Status.unavailable e = refl
active_not_passive Status.suspicious e = refl
active_not_passive Status.monitoring e = refl
active_not_passive Status.unconfigured e = refl

pub down_not_passive : (x : Status) → is_down x ≡ true → is_passive x ≢ true
down_not_passive Status.suspicious d e = cc
down_not_passive Status.unavailable d e = cc
down_not_passive Status.active d e = cc
down_not_passive Status.leaving d e = cc
down_not_passive Status.passive d e = cc
down_not_passive Status.monitoring d e = cc
down_not_passive Status.unconfigured d e = cc

-- The former active member is marked: it is not `l`, which is passive.
pub Stage-mark :
    (w : World) (l a : ℕ) (x : Status) (s : World)
    → Stage w l s
    → is_active (s.heap a).status ≡ true
    → is_down x ≡ true
    → Stage w l (set_status a x s).1
unfolding set_status
Stage-mark w l a x s g active down = record {
  config = g.config;
  members = g.members;
  linked = record {
    free = g.linked.free;
    reachable = λ q m.
        let old = g.linked.reachable q m in
        record { link = old.link; present = ground (arith, old.present); usable = old.usable };
  };
  hostnames = λ q. ground (arith, g.hostnames q);
  own = elim (Bool-cases (a == l)) [
    | inl same ↦ absurd (ground (arith, same, clash a l))
    | inr other ↦ ground (arith, other, g.own)
  ];
  others = λ q apart. elim (Bool-cases (a == q)) [
    | inl same ↦ elim (g.others q apart) [
      | inl before ↦ inr (ground (arith, same, before, active), ground (arith, same, down))
      | inr (was, now) ↦ inr (was, ground (arith, same, down))
    ]
    | inr other ↦ elim (g.others q apart) [
      | inl before ↦ inl (ground (arith, other, before))
      | inr (was, now) ↦ inr (was, ground (arith, other, now))
    ]
  ];
}
  where
    clash :
        (a b : ℕ)
        → a ≡ b
        → is_active (s.heap a).status ≡ true
        → is_passive (s.heap b).status ≡ true
        → false ≡ true
    clash a b same up down =
        sym (
          active_not_passive (s.heap b).status
            (ap (λ q. is_active (s.heap q).status) (sym same) ∙ up))
        ∙ down

pub find-hostname :
    (heap : ℕ → Member) (h : String) (ps : List ℕ) (p : ℕ)
    → find_member heap h ps ≡ some p
    → (heap p).hostname ≡ h
find-hostname heap h [] p found = absurd cc
find-hostname heap h (q ∷ ps) p found = elim (Bool-cases (str_eq (heap q).hostname h)) [
  | inl hit ↦ ground (arith, hit, found, eq_iff (heap q).hostname h)
  | inr miss ↦ find-hostname heap h ps p (ground (arith, miss, found))
]

pub find_same :
    (h k : ℕ → Member) (n : String) (ps : List ℕ)
    → ((q : ℕ) → (h q).hostname ≡ (k q).hostname)
    → find_member h n ps ≡ find_member k n ps
find_same h k n [] same = refl
find_same h k n (p ∷ ps) same = ground (arith, find_same h k n ps same, same p)

pub Stage-find_in :
    (w : World) (l : ℕ) (s : World) (n : String) → Stage w l s → find_in n s ≡ find_in n w
Stage-find_in w l s n g =
    ap (find_member s.heap n) g.members ∙ find_same s.heap w.heap n w.members g.hostnames
