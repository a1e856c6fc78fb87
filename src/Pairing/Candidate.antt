-- ===== src/Pairing/Candidate.antt =====
-- `buildCandidate` of apps/realtime/src/matchmaker.ts: the snapshot that a user waits with. The profile
-- and the preferences are read by the caller.
use trip2world.Queue.Store.{Store}
use trip2world.Queue.Repository.{get_entry, read_entry, join}
use trip2world.Matching.Types.{Gender, QueueCandidate, AgeBracket, GenderPreference}
use trip2world.Prelude.{
  ℕ, ◌≤◌, ◌≡◌, refl, Bool, false, Option, some, List, arith, if◌then◌else◌, Text, ==_refl,
}

pub data PlanTier : Type 0 where
  free plus premium : PlanTier

-- PLAN_PRIORITY
unfoldable pub plan_priority : PlanTier → ℕ
plan_priority free = 0
plan_priority plus = 1
plan_priority premium = 2

pub record CandidateInput : Type 0 where
  pub input_user_id : ℕ
  pub plan : PlanTier
  pub profile_gender : Option Gender
  pub profile_country : Option Text
  pub profile_languages : List Text
  pub profile_age_bracket : Option AgeBracket
  pub wanted_gender : GenderPreference
  pub wanted_countries : List Text
  pub wanted_languages : List Text
  pub wanted_age_brackets : List AgeBracket
  pub input_interest_ids : List Text
  pub input_excluded_user_ids : List ℕ
  pub input_recent_partner_ids : List ℕ
  pub priority_queue_enabled : Bool

unfoldable pub build_candidate : ℕ → CandidateInput → QueueCandidate
build_candidate now input = record {
  user_id = input.input_user_id;
  queued_at = now;
  gender_of = input.profile_gender;
  country_of = input.profile_country;
  languages = input.profile_languages;
  age_bracket_of = input.profile_age_bracket;
  interest_ids = input.input_interest_ids;
  preferred_gender = input.wanted_gender;
  preferred_countries = input.wanted_countries;
  preferred_languages = input.wanted_languages;
  preferred_age_brackets = input.wanted_age_brackets;
  excluded_user_ids = input.input_excluded_user_ids;
  recent_partner_ids = input.input_recent_partner_ids;
  priority = if input.priority_queue_enabled then plan_priority input.plan else 0;
}

-- A snapshot that is built, joined and read by a tick is the user's own again; its priority is at most
-- 2, and 0 unless priority queueing is enabled.
pub build_candidate-join :
    (now : ℕ) (input : CandidateInput) (s : Store)
    → ((get_entry input.input_user_id (join (build_candidate now input) s)).0
        ≡ some (build_candidate now input))
      × ((build_candidate now input).priority ≤ 2)
      × (input.priority_queue_enabled ≡ false → (build_candidate now input).priority ≡ 0)
unfolding build_candidate plan_priority get_entry read_entry join
build_candidate-join now input s =
    (rw (==_refl input.input_user_id) refl, ground arith, λ off. ground arith)
