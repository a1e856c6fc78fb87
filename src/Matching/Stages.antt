-- ===== src/Matching/Stages.antt =====
-- The relaxation ladder: which stage a waiting user has reached, and what it still enforces.
-- `waitedSeconds >= afterSeconds` is read in milliseconds, over `-` that stops at 0 as Math.max does.
use trip2world.Prelude.{
  ℕ, suc, ◌-◌, ◌*◌, Bool, not, Option, none, some, List, [], ◌∷◌, any, filter, get_elem?, leb,
  if◌then◌else◌,
}
use trip2world.Matching.Types.{
  RelaxableConstraint, interests, age_bracket, language, country, gender, RelaxationStage,
  QueueCandidate, constraint_eq,
}

abbrev pub has : List RelaxableConstraint → RelaxableConstraint → Bool
has active c = any (constraint_eq c) active

abbrev stage : ℕ → List RelaxableConstraint → RelaxationStage
stage s d = record { after_seconds = s; dropped = d }

abbrev pub default_relaxation_stages : List RelaxationStage
default_relaxation_stages =
    stage 0 []
    ∷ stage 5 (interests ∷ [])
    ∷ stage 15 (interests ∷ age_bracket ∷ language ∷ [])
    ∷ stage 30 (interests ∷ age_bracket ∷ language ∷ country ∷ [])
    ∷ stage 60 (interests ∷ age_bracket ∷ language ∷ country ∷ gender ∷ [])
    ∷ []

-- The loop, from position `i` with the index found so far; `waited` is in milliseconds.
unfoldable pub stage_loop : ℕ → ℕ → ℕ → List RelaxationStage → ℕ
stage_loop waited i index [] = index
stage_loop waited i index (s ∷ rest) =
    stage_loop waited (suc i) (if leb (s.after_seconds * 1000) waited then i else index) rest

unfoldable pub relaxation_stage_for : QueueCandidate → ℕ → List RelaxationStage → ℕ
relaxation_stage_for candidate now stages = stage_loop (now - candidate.queued_at) 0 0 stages

abbrev pub all_constraints : List RelaxableConstraint
all_constraints = interests ∷ age_bracket ∷ language ∷ country ∷ gender ∷ []

-- `stages[stageIndex]?.drop ?? []`
abbrev pub dropped_at : Option RelaxationStage → List RelaxableConstraint
dropped_at none = []
dropped_at (some s) = s.dropped

unfoldable pub active_constraints : ℕ → List RelaxationStage → List RelaxableConstraint
active_constraints stage_index stages =
    filter (λ c. not (has (dropped_at (get_elem? stages stage_index)) c)) all_constraints
