-- ===== src/Privacy/Brackets.antt =====
-- What the age is, and what a profile lets through.
use trip2world.Prelude.{
  ℕ, ◌+◌, ◌≤◌, ◌<◌, ◌≡◌, refl, ◌↔◌, ◌⊎◌, Bool, true, false, none, some, [], arith, if◌then◌else◌,
}
use trip2world.Privacy.Age.{Day, calculate_age, meets_minimum_age, age_bracket_for}
use trip2world.Privacy.Profile.{InternalUserRecord, PrivacySettings, to_public_profile}

-- Dates in their order.
abbrev pub NoLater : Day → Day → Type 0
NoLater a b =
    (a.year < b.year)
    ⊎ ((a.year ≡ b.year) × ((a.month < b.month) ⊎ ((a.month ≡ b.month) × (a.day ≤ b.day))))

-- The birthday `n` years on.
abbrev pub years_on : ℕ → Day → Day
years_on n born = record born { year = born.year + n }

-- A user is at least `minimum` years old on a day exactly when the birthday so many years on is that
-- day or before it.
pub meets_minimum_age-NoLater :
    (born now : Day) (minimum : ℕ)
    → (meets_minimum_age (some born) minimum now ≡ true) ↔ NoLater (years_on minimum born) now
unfolding meets_minimum_age calculate_age
meets_minimum_age-NoLater born now minimum = ground arith

-- Whether two users agree on what the settings show, and on what is always shown.
pub record SameShown (now : Day) (p : PrivacySettings) (u v : InternalUserRecord) : Type 0 where
  pub same_id : u.id ≡ v.id
  pub same_username : u.username ≡ v.username
  pub same_display_name : p.show_display_name ≡ true → u.display_name ≡ v.display_name
  pub same_avatar : u.avatar_url ≡ v.avatar_url
  pub same_country : p.show_country ≡ true → u.country ≡ v.country
  pub same_bracket :
      p.show_age_bracket ≡ true
      → age_bracket_for u.birth_date now ≡ age_bracket_for v.birth_date now
  pub same_languages : u.languages ≡ v.languages
  pub same_gender : p.show_gender ≡ true → u.gender ≡ v.gender
  pub same_interests : p.show_interests ≡ true → u.interests ≡ v.interests
  pub same_bio : p.show_bio ≡ true → u.bio ≡ v.bio
  pub same_verified : u.email_verified ≡ v.email_verified
  pub same_plan : u.plan ≡ v.plan

shown :
    {A : Type 0}
    → (b : Bool) (x y z : A) → (b ≡ true → x ≡ y)
    → (if b then x else z) ≡ (if b then y else z)
shown true x y z h = h refl
shown false x y z h = refl

-- Nothing else of a user reaches another one: two users who agree on what is always shown, and on the
-- age bracket and the other fields that the owner's settings show, have one and the same profile.
pub to_public_profile-SameShown :
    (now : Day) (p : PrivacySettings) (u v : InternalUserRecord)
    → SameShown now p u v
    → to_public_profile now u p ≡ to_public_profile now v p
unfolding to_public_profile
to_public_profile-SameShown now p u v s =
    rw
      (
        s.same_id,
        s.same_username,
        s.same_avatar,
        s.same_languages,
        s.same_verified,
        s.same_plan,
        shown p.show_display_name u.display_name v.display_name none s.same_display_name,
        shown p.show_country u.country v.country none s.same_country,
        shown p.show_age_bracket (age_bracket_for u.birth_date now)
            (age_bracket_for v.birth_date now) none s.same_bracket,
        shown p.show_gender u.gender v.gender none s.same_gender,
        shown p.show_interests u.interests v.interests [] s.same_interests,
        shown p.show_bio u.bio v.bio none s.same_bio,
      )
      refl
