-- ===== src/Score/Winner.antt =====
-- Who wins by score.
use pulseha.Base.{
  ℕ, String, List, [], ◌∷◌, true, false, Option, some, ◌≡◌, ◌⊎◌, refl, sym, ap, ◌∙◌, arith, inl,
  inr, In, Bool-cases,
}
use pulseha.Base.Int.{ℤ, ltb_ℤ}
use pulseha.Exec.{Outcome, returned}
use pulseha.Config.{Node}
use pulseha.World.{World, Env}
use pulseha.MemberList.{find_in}
use pulseha.Failover.Election.{IsCovered, get_member_by_hostname_lem}
use pulseha.Score.{second_loop}

abbrev score_of : World → ℕ → ℤ
score_of w p = (w.heap p).score

-- No node of the list has a member with a score above `z`.
abbrev pub NoneAbove : List (String × Node) → World → ℤ → Type 0
NoneAbove es w z =
    (e : String × Node) (q : ℕ)
    → In e es
    → find_in e.1.hostname w ≡ some q
    → ltb_ℤ z (w.heap q).score ≡ false

-- The member of a node with the highest score, which is above `z`.
pub record IsHighest (es : List (String × Node)) (w : World) (z : ℤ) (p : ℕ) : Type 0 where
  pub entry : String × Node
  pub listed : In entry es
  pub found : find_in entry.1.hostname w ≡ some p
  pub above : ltb_ℤ z (w.heap p).score ≡ true
  pub highest : NoneAbove es w (w.heap p).score

-- The member so far stays if no score is above its own, and else one of the highest score is found.
abbrev pub IsWon : List (String × Node) → World → ℤ → Option ℕ → Outcome (Option ℕ) × World → Type 0
IsWon es w z winner r =
    (o : Option ℕ) × (r ≡ (returned o, w))
    × (((o ≡ winner) × NoneAbove es w z) ⊎ ((p : ℕ) × (o ≡ some p) × IsHighest es w z p))

same_score :
    (w : World) (h : String) (p q : ℕ) → find_in h w ≡ some p → find_in h w ≡ some q → p ≡ q
same_score w h p q found also = ground (arith, found, also)

NoneAbove-cons :
    (e : String × Node) (es : List (String × Node)) (w : World) (z : ℤ) (p : ℕ)
    → find_in e.1.hostname w ≡ some p
    → ltb_ℤ z (w.heap p).score ≡ false
    → NoneAbove es w z
    → NoneAbove (e ∷ es) w z
NoneAbove-cons e es w z p found low all d q (inl here) also =
    let same : p ≡ q = same_score w e.1.hostname p q found (rw⁻¹ here also) in
    ap (λ r. ltb_ℤ z (w.heap r).score) (sym same) ∙ low
NoneAbove-cons e es w z p found low all d q (inr there) also = all d q there also

IsHighest-cons :
    (e : String × Node) (es : List (String × Node)) (w : World) (z y : ℤ) (p q : ℕ)
    → find_in e.1.hostname w ≡ some p
    → ltb_ℤ y (w.heap q).score ≡ true
    → ltb_ℤ (w.heap q).score (w.heap p).score ≡ false
    → IsHighest es w z q
    → IsHighest (e ∷ es) w y q
IsHighest-cons e es w z y p q found above low b = record {
  entry = b.entry;
  listed = inr b.listed;
  found = b.found;
  above = above;
  highest = NoneAbove-cons e es w (score_of w q) p found low b.highest;
}

above_trans : (a b c : ℤ) → ltb_ℤ a b ≡ true → ltb_ℤ b c ≡ true → ltb_ℤ a c ≡ true
above_trans a b c h k = ground (arith, h, k)

above_asym : (a b : ℤ) → ltb_ℤ a b ≡ true → ltb_ℤ b a ≡ false
above_asym a b h = ground (arith, h)

below-above : (a b c : ℤ) → ltb_ℤ a b ≡ false → ltb_ℤ a c ≡ true → ltb_ℤ c b ≡ false
below-above a b c h k = ground (arith, h, k)

not_above_self : (a : ℤ) → ltb_ℤ a a ≡ false
not_above_self a = ground arith

-- Where every node has a hostname and a member and the list is free, the second loop of
-- GetHighestScoreMember returns and changes nothing: from the score `z` it gives the member of a node
-- that no node's member surpasses and that is above `z`, or the winner so far if no member is above `z`.
pub second_loop-IsWon :
    (env : Env) (z : ℤ) (winner : Option ℕ) (es : List (String × Node)) (w : World)
    → w.locked ≡ false
    → IsCovered es w
    → IsWon es w z winner (second_loop env z winner es w)
unfolding second_loop
second_loop-IsWon env z winner [] w free c = (winner, refl, inl (refl, λ e q m. elim m [ ]))
second_loop-IsWon env z winner (e ∷ es) w free c =
    let (named, member) = c e (inl refl) in
    let (p, found) = member in
    rw (get_member_by_hostname_lem env e.1.hostname w named free, found)
      (elim (Bool-cases (ltb_ℤ z (w.heap p).score)) [
        | inl better ↦ rw better (
            won p found better
              (second_loop-IsWon env (w.heap p).score (some p) es w free (λ d m. c d (inr m))))
        | inr worse ↦
            rw worse
              (kept p found worse (second_loop-IsWon env z winner es w free (λ d m. c d (inr m))))
      ])
  where
    won :
        (p : ℕ)
        → find_in e.1.hostname w ≡ some p
        → ltb_ℤ z (w.heap p).score ≡ true
        → IsWon es w (w.heap p).score (some p) (second_loop env (w.heap p).score (some p) es w)
        → IsWon (e ∷ es) w z winner (second_loop env (w.heap p).score (some p) es w)
    won p found better (o, r, inl (first, low)) = (
      o,
      r,
      inr (
        p,
        first,
        record {
          entry = e;
          listed = inl refl;
          found = found;
          above = better;
          highest =
              NoneAbove-cons e es w (score_of w p) p found (not_above_self (score_of w p)) low;
        },
      ),
    )
    won p found better (o, r, inr (q, is_q, b)) = (
      o,
      r,
      inr (
        q,
        is_q,
        IsHighest-cons e es w _ z p q found
            (above_trans z (score_of w p) (score_of w q) better b.above)
            (above_asym (score_of w p) (score_of w q) b.above) b,
      ),
    )

    kept :
        (p : ℕ)
        → find_in e.1.hostname w ≡ some p
        → ltb_ℤ z (w.heap p).score ≡ false
        → IsWon es w z winner (second_loop env z winner es w)
        → IsWon (e ∷ es) w z winner (second_loop env z winner es w)
    kept p found worse (o, r, inl (same, low)) =
        (o, r, inl (same, NoneAbove-cons e es w z p found worse low))
    kept p found worse (o, r, inr (q, is_q, b)) = (
      o,
      r,
      inr (
        q,
        is_q,
        IsHighest-cons e es w z z p q found b.above
            (below-above z (score_of w p) (score_of w q) worse b.above) b,
      ),
    )
