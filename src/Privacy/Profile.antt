-- ===== src/Privacy/Profile.antt =====
-- `toPublicProfile`.
use trip2world.Prelude.{ℕ, Bool, true, Option, none, List, [], if◌then◌else◌, Text}
use trip2world.Matching.Types.{AgeBracket, Gender}
use trip2world.Pairing.Candidate.{PlanTier}
use trip2world.Privacy.Age.{Day, age_bracket_for}

pub record InternalUserRecord : Type 0 where
  pub id : ℕ
  pub username : Text
  pub display_name : Option Text
  pub avatar_url : Option Text
  pub country : Option Text
  pub birth_date : Option Day
  pub languages : List Text
  pub gender : Option Gender
  pub interests : List Text
  pub bio : Option Text
  pub email_verified : Bool
  pub plan : PlanTier
  pub email : Option Text
  pub password_hash : Option Text
  pub last_ip_hash : Option Text
  pub safety_score : Option ℕ
  pub role : Option Text
  pub status : Option Text
  pub moderator_notes : Option Text
  pub city : Option Text
  pub latitude : Option ℕ
  pub longitude : Option ℕ

-- The switches that the projection reads.
pub record PrivacySettings : Type 0 where
  pub show_display_name : Bool
  pub show_country : Bool
  pub show_age_bracket : Bool
  pub show_gender : Bool
  pub show_interests : Bool
  pub show_bio : Bool

abbrev pub default_privacy_settings : PrivacySettings
default_privacy_settings = record {
  show_display_name = true;
  show_country = true;
  show_age_bracket = true;
  show_gender = true;
  show_interests = true;
  show_bio = true;
}

pub record PublicProfile : Type 0 where
  pub public_id : ℕ
  pub public_username : Text
  pub public_display_name : Option Text
  pub public_avatar_url : Option Text
  pub public_country : Option Text
  pub public_age_bracket : Option AgeBracket
  pub public_languages : List Text
  pub public_gender : Option Gender
  pub public_interests : List Text
  pub public_bio : Option Text
  pub verified : Bool
  pub public_plan : PlanTier

unfoldable pub to_public_profile : Day → InternalUserRecord → PrivacySettings → PublicProfile
to_public_profile now u privacy = record {
  public_id = u.id;
  public_username = u.username;
  public_display_name = if privacy.show_display_name then u.display_name else none;
  public_avatar_url = u.avatar_url;
  public_country = if privacy.show_country then u.country else none;
  public_age_bracket = if privacy.show_age_bracket then age_bracket_for u.birth_date now else none;
  public_languages = u.languages;
  public_gender = if privacy.show_gender then u.gender else none;
  public_interests = if privacy.show_interests then u.interests else [];
  public_bio = if privacy.show_bio then u.bio else none;
  verified = u.email_verified;
  public_plan = u.plan;
}
