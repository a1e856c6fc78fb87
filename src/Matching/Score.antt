-- ===== src/Matching/Score.antt =====
-- The score of a legal pairing. Every term is an integer in units of 1/2000 point, in which a
-- millisecond of waiting counts 3 (1.5 points a second); a double rounds the exact sum.
use trip2world.Prelude.{
  ℕ, ◌+◌, ◌*◌, min, Bool, false, ◌&&◌, ◌||◌, Option, none, some, List, length, filter, includes,
  Text, includes_text, if◌then◌else◌,
}
use trip2world.Prelude.Int.{ℤ, pos, ◌+ℤ◌, sub_ℕ, ltb_ℤ}
use trip2world.Matching.Types.{QueueCandidate}
use trip2world.Matching.Rules.{nonempty}
use trip2world.Matching.Weights

-- So many points, in the units of the score.
abbrev pub points : ℕ → ℕ
points n = n * 2000

pub record ScoreBreakdown : Type 0 where
  pub total : ℤ
  pub shared_interests : ℕ
  pub shared_languages : ℕ
  pub country_preference : ℕ
  pub wait_time : ℤ
  pub priority : ℕ
  pub recent_partner_penalty : ℤ

-- `seeker.interestIds.filter((id) => candidate.interestIds.includes(id))`
abbrev pub shared : List Text → List Text → List Text
shared mine theirs = filter (includes_text theirs) mine

-- `preferred.length > 0 && country !== null && preferred.includes(country)`
abbrev pub wants_country : List Text → Option Text → Bool
wants_country preferred none = false
wants_country preferred (some c) = nonempty preferred && includes_text preferred c

abbrev pub country_bonus : Bool → Bool → ℕ
country_bonus seeker_wants candidate_wants =
    if seeker_wants && candidate_wants
    then points Weights.mutual_country_preference
    else if seeker_wants || candidate_wants
    then points Weights.one_sided_country_preference
    else 0

-- `Math.min(((now - oldest) / 1000) * 1.5, 60)`, which is negative for a time to come.
abbrev pub wait_bonus : ℕ → ℕ → ℤ
wait_bonus now oldest =
    let waited = sub_ℕ (3 * now) (3 * oldest) in
    let cap = pos (points Weights.max_wait_bonus) in if ltb_ℤ waited cap then waited else cap

unfoldable pub is_recent_partner : QueueCandidate → QueueCandidate → Bool
is_recent_partner seeker candidate =
    includes seeker.recent_partner_ids candidate.user_id
    || includes candidate.recent_partner_ids seeker.user_id

unfoldable pub score_pair : QueueCandidate → QueueCandidate → ℕ → ScoreBreakdown
unfolding is_recent_partner
score_pair seeker candidate now =
    let shared_interests = points (
      min (length (shared seeker.interest_ids candidate.interest_ids) * Weights.per_shared_interest)
        Weights.max_interest_bonus) in
    let shared_languages = points (
      min (length (shared seeker.languages candidate.languages) * Weights.per_shared_language)
        Weights.max_language_bonus) in
    let country_preference =
      country_bonus (wants_country seeker.preferred_countries candidate.country_of)
        (wants_country candidate.preferred_countries seeker.country_of) in
    let wait_time = wait_bonus now (min seeker.queued_at candidate.queued_at) in
    let priority = points (candidate.priority * Weights.per_priority_level) in
    let recent_partner_penalty : ℤ =
      if is_recent_partner seeker candidate then Weights.recent_partner_penalty else pos 0 in
    record {
      total =
          pos (shared_interests + shared_languages + country_preference)
          +ℤ wait_time
          +ℤ pos priority
          +ℤ recent_partner_penalty;
      shared_interests = shared_interests;
      shared_languages = shared_languages;
      country_preference = country_preference;
      wait_time = wait_time;
      priority = priority;
      recent_partner_penalty = recent_partner_penalty;
    }
