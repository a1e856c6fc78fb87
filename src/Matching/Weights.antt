-- ===== src/Matching/Weights.antt =====
-- SCORE_WEIGHTS.
use trip2world.Prelude.{ℕ}
use trip2world.Prelude.Int.{ℤ, negsuc}

abbrev pub per_shared_interest : ℕ
per_shared_interest = 12

abbrev pub max_interest_bonus : ℕ
max_interest_bonus = 48

abbrev pub per_shared_language : ℕ
per_shared_language = 8

abbrev pub max_language_bonus : ℕ
max_language_bonus = 16

abbrev pub mutual_country_preference : ℕ
mutual_country_preference = 15

abbrev pub one_sided_country_preference : ℕ
one_sided_country_preference = 7

abbrev pub max_wait_bonus : ℕ
max_wait_bonus = 60

abbrev pub per_priority_level : ℕ
per_priority_level = 10

-- -500 points.
abbrev pub recent_partner_penalty : ℤ
recent_partner_penalty = negsuc 999999
