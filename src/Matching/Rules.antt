-- ===== src/Matching/Rules.antt =====
-- The hard rules, which nothing relaxes, and the soft preferences of one side.
use trip2world.Prelude.{
  ℕ, ◌==◌, Bool, true, false, not, ◌&&◌, ◌||◌, Option, none, some, List, [], ◌∷◌, any, includes,
  Text, includes_text, if◌then◌else◌,
}
use trip2world.Matching.Types.{
  Gender, male, female, GenderPreference, only_male, only_female, any_gender, AgeBracket,
  RelaxableConstraint, age_bracket, language, country, gender, QueueCandidate, bracket_eq,
}
use trip2world.Matching.Stages.{has}

pub data HardRuleViolation : Type 0 where
  self blocked occupied : HardRuleViolation

unfoldable pub check_hard_rules :
    QueueCandidate → QueueCandidate → List ℕ → Option HardRuleViolation
check_hard_rules seeker candidate occupied_user_ids =
    if seeker.user_id == candidate.user_id
    then some self
    else if includes seeker.excluded_user_ids candidate.user_id
        || includes candidate.excluded_user_ids seeker.user_id
    then some blocked
    else if includes occupied_user_ids candidate.user_id
        || includes occupied_user_ids seeker.user_id
    then some occupied
    else none

-- `preference === actual`: MALE and FEMALE are the only values that the two types share.
abbrev pub same_gender : GenderPreference → Gender → Bool
same_gender only_male male = true
same_gender only_female female = true
same_gender _ _ = false

unfoldable pub gender_satisfied : GenderPreference → Option Gender → Bool
gender_satisfied any_gender actual = true
gender_satisfied preference none = false
gender_satisfied preference (some g) = same_gender preference g

-- `xs.length > 0`
abbrev pub nonempty : {A : Type 0} → List A → Bool
nonempty [] = false
nonempty (_ ∷ _) = true

-- `candidate.country && preferred.includes(candidate.country)`: null and '' are both falsy.
abbrev pub country_in : List Text → Option Text → Bool
country_in preferred none = false
country_in preferred (some []) = false
country_in preferred (some (c ∷ cs)) = includes_text preferred (c ∷ cs)

abbrev pub bracket_in : List AgeBracket → Option AgeBracket → Bool
bracket_in preferred none = false
bracket_in preferred (some b) = any (bracket_eq b) preferred

unfoldable pub satisfies_preferences :
    QueueCandidate → QueueCandidate → List RelaxableConstraint → Bool
satisfies_preferences seeker candidate active =
    if has active gender && not (gender_satisfied seeker.preferred_gender candidate.gender_of)
    then false
    else if (has active country && nonempty seeker.preferred_countries)
        && not (country_in seeker.preferred_countries candidate.country_of)
    then false
    else if (has active language && nonempty seeker.preferred_languages)
        && not (any (includes_text seeker.preferred_languages) candidate.languages)
    then false
    else if (has active age_bracket && nonempty seeker.preferred_age_brackets)
        && not (bracket_in seeker.preferred_age_brackets candidate.age_bracket_of)
    then false
    else true
