-- ===== src/Failover/Promotion.antt =====
-- PromoteMember: what it refuses, and how it fails.
use pulseha.Base.{
  ℕ, String, true, false, Option, none, some, ◌≡◌, ◌≢◌, ◌⊎◌, inl, inr, refl, arith, if◌then◌else◌,
  ltb, ◌<◌, Option-cases, Bool-cases, is_some,
}
use pulseha.Exec.{returned, panicked, skip}
use pulseha.Exec.Keeps.{Keeps, bind-Keeps, bind-never}
use pulseha.Config.{node_count}
use pulseha.World.{World, Env, Status, LogLevel}
use pulseha.Member.{log}
use pulseha.Member.Frame.{Frame, Frame-refl, log-Frame}
use pulseha.MemberList.{find_in, is_passive, is_active, get_active_member}
use pulseha.Failover.Election.{get_member_by_hostname_lem}
use pulseha.Failover.{
  promote_member, promote_found, refuse, exchange, fall_back, demote, make_active, is_unavailable,
}

-- A member that may not be promoted now: there is none of the hostname, it is active already, or it is
-- unavailable in a cluster of several nodes.
abbrev pub IsRefused : String → World → Type 0
IsRefused h w =
    (find_in h w ≡ none)
    ⊎ ((p : ℕ) × (find_in h w ≡ some p)
        × (((w.heap p).status ≡ Status.active)
            ⊎ (((w.heap p).status ≡ Status.unavailable) × (1 < node_count w.config))))

refuse-Frame : (env : Env) (w : World) (m e : String) → Keeps (Frame w) (refuse env m e)
unfolding refuse
refuse-Frame env w m e =
    bind-Keeps (Frame w) (log env LogLevel.warning m) _ (log-Frame env w LogLevel.warning m)
      (λ _ s f. f)

-- A promotion that is refused, of a named host with the list free, leaves configuration, list, config
-- file and every field of the members but their connections as before.
pub promote_member_refused :
    (env : Env) (h : String) (w : World)
    → h ≢ ""
    → w.locked ≡ false
    → IsRefused h w
    → Frame w (promote_member env h w).1
unfolding promote_member promote_found
promote_member_refused env h w named free (inl unknown) =
    rw (get_member_by_hostname_lem env h w named free, unknown)
      (refuse-Frame env w _ _ w (Frame-refl w))
promote_member_refused env h w named free (inr (p, found, inl active)) =
    rw (get_member_by_hostname_lem env h w named free, found, active)
      (refuse-Frame env w _ _ w (Frame-refl w))
promote_member_refused env h w named free (inr (p, found, inr (gone, many))) =
    rw (get_member_by_hostname_lem env h w named free, found, gone, several)
      (refuse-Frame env w _ _ w (Frame-refl w))
  where
    several : ltb 1 (node_count w.config) ≡ true
    several = ground (arith, many)

-- A status for which PromoteMember makes an exception, or one it does not name.
status_cases :
    (s : Status)
    → (s ≡ Status.active)
      ⊎ ((s ≡ Status.unavailable) ⊎ ((is_active s ≡ false) × (is_unavailable s ≡ false)))
status_cases Status.active = inl refl
status_cases Status.leaving = inr (inr (refl, refl))
status_cases Status.passive = inr (inr (refl, refl))
status_cases Status.unavailable = inr (inl refl)
status_cases Status.suspicious = inr (inr (refl, refl))
status_cases Status.monitoring = inr (inr (refl, refl))
status_cases Status.unconfigured = inr (inr (refl, refl))

passive_only :
    (s : Status) → is_passive s ≡ true → (is_active s ≡ false) × (is_unavailable s ≡ false)
passive_only Status.active h = cc
passive_only Status.leaving h = cc
passive_only Status.passive h = (refl, refl)
passive_only Status.unavailable h = cc
passive_only Status.suspicious h = cc
passive_only Status.monitoring h = cc
passive_only Status.unconfigured h = cc

exchange-never :
    (env : Env) (p : ℕ) (former : Option ℕ) (e : String) (w : World)
    → (exchange env p former w).0 ≢ returned (some e)
unfolding exchange
exchange-never env p former e w = bind-never (demote env former) _ (some e) w λ _ s.
    bind-never (make_active env p) _ (some e) s λ r t.
      bind-never (if is_some r then fall_back env p former else skip) _ (some e) t (λ _ u h. cc)

tried :
    (env : Env) (h : String) (w : World) (e : String) (p : ℕ)
    → (promote_found env h (some p) w).0 ≡ returned (some e)
    → ((w.heap p).status ≡ Status.active)
      ⊎ (((w.heap p).status ≡ Status.unavailable) × (1 < node_count w.config))
unfolding promote_found
tried env h w e p r = elim (status_cases (w.heap p).status) [
  | inl active ↦ inl active
  | inr (inl gone) ↦ (elim (Bool-cases (ltb 1 (node_count w.config))) [
    | inl many ↦ inr (gone, ground (arith, many))
    | inr one ↦ absurd (exchange-never env p (get_active_member w).1 e w (rw (gone, one) at r))
  ])
  | inr (inr (a, u)) ↦ absurd (exchange-never env p (get_active_member w).1 e w (rw (a, u) at r))
]

-- With a hostname and the list free, an error of PromoteMember means that the promotion was refused: one
-- that was tried and failed is not reported.
pub promote_member_error :
    (env : Env) (h : String) (w : World) (e : String)
    → h ≢ ""
    → w.locked ≡ false
    → (promote_member env h w).0 ≡ returned (some e)
    → IsRefused h w
unfolding promote_member
promote_member_error env h w e named free r = elim (Option-cases (find_in h w)) [
  | inl unknown ↦ inl unknown
  | inr (p, found) ↦
      inr (
        p,
        found,
        tried env h w e p (rw (get_member_by_hostname_lem env h w named free, found) at r),
      )
]

-- With no active member and the list free, the promotion of a passive one, named, that fails ends in a
-- panic: the member to fall back to is nil.
pub promote_member_panics :
    (env : Env) (h : String) (w : World) (p : ℕ) (e : String)
    → h ≢ ""
    → w.locked ≡ false
    → find_in h w ≡ some p
    → is_passive (w.heap p).status ≡ true
    → (get_active_member w).1 ≡ none
    → (make_active env p w).0 ≡ returned (some e)
    → (promote_member env h w).0 ≡ panicked
unfolding promote_member promote_found exchange demote fall_back
promote_member_panics env h w p e named free found passive none_active failed =
    rw (get_member_by_hostname_lem env h w named free, found, none_active, statuses.0, statuses.1)
      (rw (failed) refl)
  where
    statuses : (is_active (w.heap p).status ≡ false) × (is_unavailable (w.heap p).status ≡ false)
    statuses = passive_only (w.heap p).status passive
