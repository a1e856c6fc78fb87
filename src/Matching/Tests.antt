-- ===== src/Matching/Tests.antt =====
-- The theorems about matchmaking at a concrete queue.
use trip2world.Prelude.{
  ℕ, ◌≡◌, refl, ◌≢◌, inl, inr, false, none, some, List, [], ◌∷◌, codes, text_eq,
}
use trip2world.Prelude.Int.{◌+ℤ◌}
use trip2world.Matching.Types.{female, only_male, any_gender, QueueCandidate}
use trip2world.Matching.Stages.{
  default_relaxation_stages, stage_loop, relaxation_stage_for, active_constraints,
}
use trip2world.Matching.Rules.{check_hard_rules, satisfies_preferences, gender_satisfied}
use trip2world.Matching.Score.{score_pair, is_recent_partner}
use trip2world.Matching.Select.{
  MatchSelection, SelectOptions, is_better, selection, consider, select_loop, select_best_match,
}
use trip2world.Matching.Best.{Legal, select_best}
use trip2world.Matching.Recent.{Safe, select-Safe}

abbrev waiting : ℕ → ℕ → QueueCandidate
waiting id at = record {
  user_id = id;
  queued_at = at;
  gender_of = some female;
  country_of = some (codes "PT");
  languages = codes "pt" ∷ [];
  age_bracket_of = none;
  interest_ids = codes "music" ∷ [];
  preferred_gender = any_gender;
  preferred_countries = [];
  preferred_languages = [];
  preferred_age_brackets = [];
  excluded_user_ids = [];
  recent_partner_ids = [];
  priority = 0;
}

-- Looks for men in Spain, has just met user 2 and has blocked user 4.
abbrev seeker : QueueCandidate
seeker = record (waiting 1 1000) { recent_partner_ids = 2 ∷ []; excluded_user_ids = 4 ∷ [] }

abbrev picky : QueueCandidate
picky = record (waiting 1 1000) { preferred_gender = only_male }

abbrev pool : List QueueCandidate
pool = waiting 4 500 ∷ waiting 2 1000 ∷ waiting 3 2000 ∷ []

abbrev options : SelectOptions
options = record { now = 3000; stages = default_relaxation_stages; occupied_user_ids = [] }

chosen : select_best_match seeker pool options ≡ some (selection seeker options (waiting 3 2000))
unfolding select_best_match select_loop consider check_hard_rules satisfies_preferences
    gender_satisfied score_pair is_recent_partner selection is_better text_eq active_constraints
    relaxation_stage_for stage_loop ◌+ℤ◌
chosen = refl

Legal-third : Legal seeker options (waiting 3 2000)
unfolding check_hard_rules satisfies_preferences gender_satisfied active_constraints
    relaxation_stage_for stage_loop
Legal-third = (refl, refl, refl)

select_best_example :
    (m : MatchSelection) × (select_best_match seeker pool options ≡ some m)
    × (is_better (score_pair seeker (waiting 3 2000) 3000) (waiting 3 2000) m ≡ false)
select_best_example =
    select_best seeker options pool (waiting 3 2000) (inr (inr (inl refl))) Legal-third

-- The same users in another order.
abbrev other_pool : List QueueCandidate
other_pool = waiting 3 2000 ∷ waiting 2 1000 ∷ waiting 4 500 ∷ []

select-Safe_example : Safe seeker (waiting 3 2000) []
unfolding selection
select-Safe_example =
    select-Safe seeker pool options (selection seeker options (waiting 3 2000)) chosen

-- A man is found for someone who asks for men only once the gender constraint is dropped.
picky_waits :
    (select_best_match picky pool options ≡ none)
    × (select_best_match picky pool (record options { now = 62000 }) ≢ none)
unfolding select_best_match select_loop consider check_hard_rules satisfies_preferences
    gender_satisfied score_pair is_recent_partner selection is_better text_eq active_constraints
    relaxation_stage_for stage_loop ◌+ℤ◌
picky_waits = (refl, λ e. cc)
