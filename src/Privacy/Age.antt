-- ===== src/Privacy/Age.antt =====
-- Ages. A date is that of UTC, as year, month and day; a text that is no date has none.
use trip2world.Prelude.{
  ℕ, suc, Bool, false, ◌&&◌, ◌||◌, Option, none, some, ltb, leb, ◌==◌, if◌then◌else◌,
}
use trip2world.Matching.Types.{AgeBracket, age_18_24, age_25_34, age_35_44, age_45_54, age_55_plus}
use trip2world.Prelude.Int.{ℤ, pos, negsuc, sub_ℕ}

pub record Day : Type 0 where
  pub year : ℕ
  pub month : ℕ
  pub day : ℕ

-- `monthDelta < 0 || (monthDelta === 0 && now.getUTCDate() < dob.getUTCDate())`
abbrev pub birthday_ahead : Day → Day → Bool
birthday_ahead now born =
    ltb now.month born.month || ((now.month == born.month) && ltb now.day born.day)

unfoldable pub calculate_age : Option Day → Day → Option ℤ
calculate_age none now = none
calculate_age (some born) now =
    some
      (if birthday_ahead now born then sub_ℕ now.year (suc born.year) else sub_ℕ now.year born.year)

abbrev pub bracket_of : ℕ → AgeBracket
bracket_of age =
    if ltb age 25
    then age_18_24
    else (if ltb age 35
        then age_25_34
        else (if ltb age 45 then age_35_44 else (if ltb age 55 then age_45_54 else age_55_plus)))

abbrev pub bracket_in : Option ℤ → Option AgeBracket
bracket_in none = none
bracket_in (some (negsuc n)) = none
bracket_in (some (pos age)) = some (bracket_of age)

unfoldable pub age_bracket_for : Option Day → Day → Option AgeBracket
age_bracket_for born now = bracket_in (calculate_age born now)

abbrev pub at_least : ℕ → Option ℤ → Bool
at_least minimum none = false
at_least minimum (some (negsuc n)) = false
at_least minimum (some (pos age)) = leb minimum age

unfoldable pub meets_minimum_age : Option Day → ℕ → Day → Bool
meets_minimum_age born minimum now = at_least minimum (calculate_age born now)
