-- ===== src/Matching/Select.antt =====
-- `selectBestMatch`: the loop over the pool, its three guards and the tie-breaks.
use trip2world.Prelude.{
  ℕ, ◌+◌, ◌==◌, ltb, Bool, not, Option, none, some, List, [], ◌∷◌, is_some, Text, if◌then◌else◌,
}
use trip2world.Prelude.Int.{ℤ, pos_part, neg_part, ltb_ℤ}
use trip2world.Matching.Types.{RelaxationStage, QueueCandidate}
use trip2world.Matching.Stages.{relaxation_stage_for, active_constraints}
use trip2world.Matching.Rules.{check_hard_rules, satisfies_preferences}
use trip2world.Matching.Score.{ScoreBreakdown, score_pair, shared}

pub record MatchSelection : Type 0 where
  pub candidate : QueueCandidate
  pub score : ScoreBreakdown
  pub shared_interest_ids : List Text
  pub seeker_stage : ℕ
  pub candidate_stage : ℕ

pub record SelectOptions : Type 0 where
  pub now : ℕ
  pub stages : List RelaxationStage
  pub occupied_user_ids : List ℕ

abbrev pub eq_ℤ : ℤ → ℤ → Bool
eq_ℤ a b = pos_part a + neg_part b == pos_part b + neg_part a

unfoldable pub is_better : ScoreBreakdown → QueueCandidate → MatchSelection → Bool
is_better score candidate current =
    if not (eq_ℤ score.total current.score.total)
    then ltb_ℤ current.score.total score.total
    else if not (candidate.queued_at == current.candidate.queued_at)
    then ltb candidate.queued_at current.candidate.queued_at
    else ltb candidate.user_id current.candidate.user_id

abbrev pub stage_of : SelectOptions → QueueCandidate → ℕ
stage_of o c = relaxation_stage_for c o.now o.stages

-- One side's preferences at that side's own stage.
abbrev pub accepts : SelectOptions → QueueCandidate → QueueCandidate → Bool
accepts o judge other =
    satisfies_preferences judge other (active_constraints (stage_of o judge) o.stages)

unfoldable pub selection : QueueCandidate → SelectOptions → QueueCandidate → MatchSelection
selection seeker o candidate = record {
  candidate = candidate;
  score = score_pair seeker candidate o.now;
  shared_interest_ids = shared seeker.interest_ids candidate.interest_ids;
  seeker_stage = stage_of o seeker;
  candidate_stage = stage_of o candidate;
}

-- `best === null || isBetter(score, candidate, best)`
abbrev pub improves : ScoreBreakdown → QueueCandidate → Option MatchSelection → Bool
improves score candidate none = Bool.true
improves score candidate (some best) = is_better score candidate best

-- The body of the loop.
unfoldable pub consider :
    QueueCandidate → SelectOptions → Option MatchSelection → QueueCandidate → Option MatchSelection
consider seeker o best candidate =
    if is_some (check_hard_rules seeker candidate o.occupied_user_ids)
    then best
    else if not (accepts o seeker candidate)
    then best
    else if not (accepts o candidate seeker)
    then best
    else if improves (score_pair seeker candidate o.now) candidate best
    then some (selection seeker o candidate)
    else best

unfoldable pub select_loop :
    QueueCandidate
    → SelectOptions
    → Option MatchSelection
    → List QueueCandidate
    → Option MatchSelection
select_loop seeker o best [] = best
select_loop seeker o best (c ∷ pool) = select_loop seeker o (consider seeker o best c) pool

unfoldable pub select_best_match :
    QueueCandidate → List QueueCandidate → SelectOptions → Option MatchSelection
select_best_match seeker pool o = select_loop seeker o none pool
