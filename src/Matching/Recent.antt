-- ===== src/Matching/Recent.antt =====
-- The weight of the recent-partner penalty against everything else in the score, and the laws of
-- the hard rules.
use trip2world.Matching.Best.{Legal, select_sound, beaten_by_none}
use trip2world.Matching.Order.{is_better_of_total}
use trip2world.Matching.Rules.{check_hard_rules}
use trip2world.Matching.Select.{
  SelectOptions, selection, is_better, MatchSelection, select_best_match,
}
use trip2world.Matching.Score.{country_bonus, wait_bonus, score_pair, is_recent_partner}
use trip2world.Matching.Types.{QueueCandidate}
use trip2world.Prelude.{
  Bool, ℕ, ◌≤◌, arith, ◌≡◌, false, true, min, List, ◌≢◌, none, In, In-includes, some, ap,
  Bool-cases, inl, inr,
}
use trip2world.Prelude.Int.{pos, ◌≤ℤ◌, +ℤ_parts}

country_bonus-le : (a b : Bool) → country_bonus a b ≤ 30000
country_bonus-le a b = ground arith

wait_bonus-le : (now oldest : ℕ) → wait_bonus now oldest ≤ℤ pos 120000
wait_bonus-le now oldest = ground arith

wait_bonus_nonneg : (now oldest : ℕ) → oldest ≤ now → pos 0 ≤ℤ wait_bonus now oldest
wait_bonus_nonneg now oldest h = ground arith

module _ (seeker c : QueueCandidate) (now : ℕ) where
  -- Someone who is no recent partner scores zero or more, once either has joined.
  score_nonneg :
      is_recent_partner seeker c ≡ false
      → min seeker.queued_at c.queued_at ≤ now
      → pos 0 ≤ℤ (score_pair seeker c now).total
  unfolding score_pair
  score_nonneg fresh joined =
      rw fresh
        (omega (arith, +ℤ_parts, wait_bonus_nonneg now (min seeker.queued_at c.queued_at) joined))

  score_recent_neg :
      is_recent_partner seeker c ≡ true
      → c.priority ≤ 2
      → ¬ (pos 0 ≤ℤ (score_pair seeker c now).total)
  unfolding score_pair
  score_recent_neg recent low = rw recent (omega (arith, +ℤ_parts, country_bonus-le, wait_bonus-le))

module _ (seeker : QueueCandidate) (o : SelectOptions) where
  fresh_beats_recent :
      (c d : QueueCandidate)
      → is_recent_partner seeker c ≡ false
      → min seeker.queued_at c.queued_at ≤ o.now
      → is_recent_partner seeker d ≡ true
      → d.priority ≤ 2
      → is_better (score_pair seeker c o.now) c (selection seeker o d) ≡ true
  unfolding selection
  fresh_beats_recent c d fresh joined recent low =
      is_better_of_total (score_pair seeker c o.now) c (selection seeker o d) (
        omega (
          arith,
          score_nonneg seeker c o.now fresh joined,
          score_recent_neg seeker d o.now recent low,
        ))

  -- While a legal candidate is in the pool whom the seeker has not met lately, and one of the two
  -- had joined by now, no recent partner is selected; priorities are those of the three plans.
  pub recent_last :
      (pool : List QueueCandidate) (c : QueueCandidate) (m : MatchSelection)
      → In c pool
      → Legal seeker o c
      → is_recent_partner seeker c ≡ false
      → min seeker.queued_at c.queued_at ≤ o.now
      → ((d : QueueCandidate) → In d pool → d.priority ≤ 2)
      → select_best_match seeker pool o ≡ some m
      → is_recent_partner seeker m.candidate ≡ false
  unfolding selection
  recent_last pool c m at legal fresh joined low e =
      let (d, d_at, _, d_eq) = select_sound seeker o pool m e in
      let top = beaten_by_none seeker o pool c m at legal e in
      let same : m.candidate ≡ d = ap (λ x. x.candidate) d_eq in
      rw same (elim (Bool-cases (is_recent_partner seeker d)) [
        | inl recent ↦ cc (fresh_beats_recent c d fresh joined recent (low d d_at), d_eq, top)
        | inr met_not ↦ met_not
      ])

-- The hard rules do not depend on who seeks.
pub check_hard_rules_comm :
    (a b : QueueCandidate) (occupied : List ℕ)
    → check_hard_rules a b occupied ≡ check_hard_rules b a occupied
unfolding check_hard_rules
check_hard_rules_comm a b occupied = ground arith

abbrev pub Safe : QueueCandidate → QueueCandidate → List ℕ → Type 0
Safe a b occupied =
    (a.user_id ≢ b.user_id)
    × ¬ (In b.user_id a.excluded_user_ids)
    × ¬ (In a.user_id b.excluded_user_ids)
    × ¬ (In a.user_id occupied)
    × ¬ (In b.user_id occupied)

check_hard_rules-Safe :
    (a b : QueueCandidate) (occupied : List ℕ)
    → check_hard_rules a b occupied ≡ none
    → Safe a b occupied
unfolding check_hard_rules
check_hard_rules-Safe a b occupied h = ground (
  arith,
  In-includes b.user_id a.excluded_user_ids,
  In-includes a.user_id b.excluded_user_ids,
  In-includes a.user_id occupied,
  In-includes b.user_id occupied,
)

-- Whoever is selected is someone else, blocked in neither direction, and neither side is occupied.
pub select-Safe :
    (seeker : QueueCandidate) (pool : List QueueCandidate) (o : SelectOptions) (m : MatchSelection)
    → select_best_match seeker pool o ≡ some m
    → Safe seeker m.candidate o.occupied_user_ids
unfolding selection
select-Safe seeker pool o m e =
    let (d, _, legal, d_eq) = select_sound seeker o pool m e in
    let same : m.candidate ≡ d = ap (λ x. x.candidate) d_eq in
    rw same (check_hard_rules-Safe seeker d o.occupied_user_ids legal.0)
