-- ===== src/Matching/Types.antt =====
-- The data of packages/shared/src/matchmaking.ts and the enumerations that it takes from
-- packages/types. Times are epoch milliseconds. A user id is a number: ids are lower-case UUIDs of
-- one length, whose order as strings is their order as numbers.
use trip2world.Prelude.{ℕ, Option, List, Text, Bool, true, false}

pub data Gender : Type 0 where
  male female non_binary other unspecified : Gender

-- `GenderPreference`: its values are the strings of the two genders, and ANY.
pub data GenderPreference : Type 0 where
  only_male only_female any_gender : GenderPreference

pub data AgeBracket : Type 0 where
  age_18_24 age_25_34 age_35_44 age_45_54 age_55_plus : AgeBracket

pub data RelaxableConstraint : Type 0 where
  interests age_bracket language country gender : RelaxableConstraint

pub record RelaxationStage : Type 0 where
  pub after_seconds : ℕ
  pub dropped : List RelaxableConstraint

pub record QueueCandidate : Type 0 where
  pub user_id : ℕ
  pub queued_at : ℕ
  pub gender_of : Option Gender
  pub country_of : Option Text
  pub languages : List Text
  pub age_bracket_of : Option AgeBracket
  pub interest_ids : List Text
  pub preferred_gender : GenderPreference
  pub preferred_countries : List Text
  pub preferred_languages : List Text
  pub preferred_age_brackets : List AgeBracket
  pub excluded_user_ids : List ℕ
  pub recent_partner_ids : List ℕ
  pub priority : ℕ

-- `===` on the constraints and on the brackets.
abbrev pub constraint_eq : RelaxableConstraint → RelaxableConstraint → Bool
constraint_eq interests interests = true
constraint_eq age_bracket age_bracket = true
constraint_eq language language = true
constraint_eq country country = true
constraint_eq gender gender = true
constraint_eq _ _ = false

abbrev pub bracket_eq : AgeBracket → AgeBracket → Bool
bracket_eq age_18_24 age_18_24 = true
bracket_eq age_25_34 age_25_34 = true
bracket_eq age_35_44 age_35_44 = true
bracket_eq age_45_54 age_45_54 = true
bracket_eq age_55_plus age_55_plus = true
bracket_eq _ _ = false
