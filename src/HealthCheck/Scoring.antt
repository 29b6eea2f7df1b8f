-- ===== src/HealthCheck/Scoring.antt =====
-- The score that ProcessHCs gives the local member.
use pulseha.Base.{
  ℕ, List, [], ◌∷◌, Bool, false, ◌≡◌, refl, ap, ◌∙◌, arith, ◌+◌, ◌<◌, ◌^◌, Bool-cases, inl, inr,
  if◌then◌else◌, All, not, ◌||◌,
}
use pulseha.Base.Int.{ℤ, pos, add_int64}
use pulseha.Exec.{returned}
use pulseha.Config.{cluster_check}
use pulseha.World.{World, Env, Plugin, store}
use pulseha.Member.{plugins_of, is_health_check, set_score}
use pulseha.Failover.Watch.{IsWatcher, get_local_member_lem}
use pulseha.HealthCheck.{score_from, process_hcs}

abbrev pub weight_of : ℤ → ℕ
weight_of (pos n) = n
weight_of _ = 0

-- The weights of the health checks that pass, added up.
unfoldable pub passed : (Plugin → Bool) → List Plugin → ℕ
passed healthy [] = 0
passed healthy (p ∷ ps) =
    if healthy p then weight_of p.weight + passed healthy ps else passed healthy ps

unfoldable pub all_weights : List Plugin → ℕ
all_weights [] = 0
all_weights (p ∷ ps) = weight_of p.weight + all_weights ps

-- No weight is negative.
abbrev pub HasWeights : List Plugin → Type 0
HasWeights ps = All (λ p. p.weight ≡ pos (weight_of p.weight)) ps

add_int64_pos : (a b : ℕ) → a + b < 2 ^ 63 → add_int64 (pos a) (pos b) ≡ pos (a + b)
add_int64_pos a b small = ground (arith, small)

score_from-passed :
    (healthy : Plugin → Bool) (ps : List Plugin) (a : ℕ)
    → HasWeights ps
    → a + all_weights ps < 2 ^ 63
    → score_from healthy (pos a) ps ≡ pos (a + passed healthy ps)
unfolding score_from passed all_weights
score_from-passed healthy [] a weighed small = ap pos (omega arith)
score_from-passed healthy (p ∷ ps) a (own, weighed) small = elim (Bool-cases (healthy p)) [
  | inl good ↦
      let n = weight_of p.weight in
      rw good (
        ap (λ z. score_from healthy z ps)
          (ap (add_int64 (pos a)) own ∙ add_int64_pos a n (omega (arith, small)))
        ∙ score_from-passed healthy ps (a + n) weighed (omega (arith, small))
        ∙ ap pos (omega arith))
  | inr bad ↦ rw bad (score_from-passed healthy ps a weighed (omega (arith, small)))
]

score_all :
    (healthy : Plugin → Bool) (ps : List Plugin)
    → HasWeights ps
    → all_weights ps < 2 ^ 63
    → score_from healthy (pos 0) ps ≡ pos (passed healthy ps)
score_all healthy ps weighed small =
    score_from-passed healthy ps 0 weighed (omega (arith, small)) ∙ ap pos (omega arith)

-- In a cluster with the local member known and the list free, once the start is over: a round of ProcessHCs
-- sets the score of the local member to the sum of the weights of the health checks that pass, if no weight is
-- negative and all together stay below 2^63; the state is the one before but for that score, and the routine
-- goes on.
pub process_hcs-passed :
    (env : Env) (w : World) (l : ℕ)
    → IsWatcher w l
    → w.start_delay ≡ false
    → HasWeights (plugins_of is_health_check w.modules)
    → all_weights (plugins_of is_health_check w.modules) < 2 ^ 63
    → process_hcs env w ≡ (
      returned false,
      store l
          (λ m. record m {
            score = pos (passed (env.check_health w.trace) (plugins_of is_health_check w.modules));
          })
          w,
    )
unfolding process_hcs set_score
process_hcs-passed env w l i started weighed small =
    let guard : (w.start_delay || not (cluster_check w.config)) ≡ false =
      ground (arith, started, i.clustered) in
    rw
      (
        guard,
        get_local_member_lem env w l i,
        score_all (env.check_health w.trace) (plugins_of is_health_check w.modules) weighed small,
      )
      refl
