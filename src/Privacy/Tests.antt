-- ===== src/Privacy/Tests.antt =====
-- Tests of the profile and of ages.
use trip2world.Prelude.{ℕ, ◌≡◌, refl, ◌↔◌, true, false, none, some, [], arith, codes}
use trip2world.Privacy.Rollout.{is_in_rollout, hash_string, hash_from}
use trip2world.Privacy.Display.{sanitize_display_text, is_tidy, sanitize_display_text-is_tidy}
use trip2world.Pairing.Candidate.{free}
use trip2world.Privacy.Age.{Day, meets_minimum_age, calculate_age, age_bracket_for}
use trip2world.Privacy.Profile.{
  InternalUserRecord, PrivacySettings, to_public_profile, default_privacy_settings,
}
use trip2world.Privacy.Brackets.{
  NoLater, meets_minimum_age-NoLater, SameShown, to_public_profile-SameShown,
}

abbrev on_day : ℕ → ℕ → ℕ → Day
on_day y m d = record { year = y; month = m; day = d }

meets_minimum_age-NoLater_example :
    (meets_minimum_age (some (on_day 2006 5 20)) 18 (on_day 2024 5 19) ≡ true)
    ↔ NoLater (on_day 2024 5 20) (on_day 2024 5 19)
meets_minimum_age-NoLater_example =
    meets_minimum_age-NoLater (on_day 2006 5 20) (on_day 2024 5 19) 18

-- The birthday of a private user.
abbrev born_on : Day → InternalUserRecord
born_on born = record {
  id = 1;
  username = codes "ana";
  display_name = none;
  avatar_url = none;
  country = some (codes "PT");
  birth_date = some born;
  languages = [];
  gender = none;
  interests = [];
  bio = none;
  email_verified = true;
  plan = free;
  email = some (codes "a");
  password_hash = none;
  last_ip_hash = none;
  safety_score = none;
  role = none;
  status = none;
  moderator_notes = none;
  city = none;
  latitude = none;
  longitude = none;
}

-- One who moved, and who was born on another day of the same_but_country bracket.
abbrev someone_else : InternalUserRecord
someone_else = record (born_on (on_day 2001 1 1)) {
  country = some (codes "BR");
  city = some (codes "Rio");
}

abbrev no_country : PrivacySettings
no_country = record default_privacy_settings { show_country = false }

same_but_country : SameShown (on_day 2024 5 19) no_country (born_on (on_day 2000 2 2)) someone_else
unfolding age_bracket_for calculate_age
same_but_country = record {
  same_id = refl;
  same_username = refl;
  same_display_name = λ h. refl;
  same_avatar = refl;
  same_country = λ h. absurd (ground arith);
  same_bracket = λ h. refl;
  same_languages = refl;
  same_gender = λ h. refl;
  same_interests = λ h. refl;
  same_bio = λ h. refl;
  same_verified = refl;
  same_plan = refl;
}

to_public_profile-SameShown_example :
    to_public_profile (on_day 2024 5 19) (born_on (on_day 2000 2 2)) no_country
    ≡ to_public_profile (on_day 2024 5 19) someone_else no_country
to_public_profile-SameShown_example =
    to_public_profile-SameShown (on_day 2024 5 19) no_country (born_on (on_day 2000 2 2))
      someone_else same_but_country

sanitize_display_text-is_tidy_example :
    (is_tidy (sanitize_display_text (codes " Ana  B ")) ≡ true)
    × (sanitize_display_text (sanitize_display_text (codes " Ana  B "))
        ≡ sanitize_display_text (codes " Ana  B "))
sanitize_display_text-is_tidy_example = sanitize_display_text-is_tidy (codes " Ana  B ")

in_at_ninety : is_in_rollout (codes "new") (codes "u1") 90 ≡ true
unfolding is_in_rollout hash_string hash_from
in_at_ninety = refl
