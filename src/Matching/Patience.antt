-- ===== src/Matching/Patience.antt =====
-- The relaxation ladder over time: the stage only grows, and with the default ladder what was
-- acceptable stays acceptable.
use trip2world.Matching.Best.{Legal, select_none_iff}
use trip2world.Matching.Select.{SelectOptions, accepts, select_best_match}
use trip2world.Prelude.{
  refl, ℕ, zero, suc, ◌+◌, ◌-◌, ◌≤◌, ◌<◌, ◌≡◌, ◌≢◌, true, List, [], ◌∷◌, length, arith, ltb, Bool,
  if◌then◌else◌, ◌&&◌, none, not, false,
}
use trip2world.Matching.Types.{
  RelaxableConstraint, interests, age_bracket, language, country, gender, RelaxationStage,
  QueueCandidate,
}
use trip2world.Matching.Stages.{
  has, default_relaxation_stages, stage_loop, relaxation_stage_for, active_constraints,
}
use trip2world.Matching.Rules.{satisfies_preferences}

stage_loop_mono :
    (w w' i index index' : ℕ) (stages : List RelaxationStage)
    → w ≤ w'
    → index ≤ index'
    → index ≤ i
    → stage_loop w i index stages ≤ stage_loop w' i index' stages
unfolding stage_loop
stage_loop_mono w w' i index index' [] hw hi hb = hi
stage_loop_mono w w' i index index' (s ∷ rest) hw hi hb =
    stage_loop_mono w w' (suc i) _ _ rest hw (ground arith) (ground arith)

-- For any ladder the stage that a candidate has reached never falls as time passes.
pub relaxation_stage_mono :
    (c : QueueCandidate) (now later : ℕ) (stages : List RelaxationStage)
    → now ≤ later
    → relaxation_stage_for c now stages ≤ relaxation_stage_for c later stages
unfolding relaxation_stage_for
relaxation_stage_mono c now later stages h =
    stage_loop_mono (now - c.queued_at) (later - c.queued_at) 0 0 0 stages (omega arith)
      (omega arith) (omega arith)

stage_loop_lt :
    (w i index : ℕ) (stages : List RelaxationStage)
    → index < i + length stages
    → stage_loop w i index stages < i + length stages
unfolding stage_loop
stage_loop_lt w i index [] h = h
stage_loop_lt w i index (s ∷ rest) h =
    ground (arith, stage_loop_lt w (suc i) i rest, stage_loop_lt w (suc i) index rest)

-- The stage is an index into the ladder, when the ladder is not empty.
pub relaxation_stage_bound :
    (c : QueueCandidate) (now : ℕ) (stages : List RelaxationStage)
    → stages ≢ []
    → relaxation_stage_for c now stages < length stages
unfolding relaxation_stage_for
relaxation_stage_bound c now [] h = absurd (h refl)
relaxation_stage_bound c now (s ∷ rest) h =
    omega (arith, stage_loop_lt (now - c.queued_at) 0 0 (s ∷ rest) (omega arith))

-- The first stage of the default ladder that no longer enforces a constraint.
abbrev drop_stage : RelaxableConstraint → ℕ
drop_stage interests = 1
drop_stage age_bracket = 2
drop_stage language = 2
drop_stage country = 3
drop_stage gender = 4

active_default :
    (k : ℕ) (c : RelaxableConstraint)
    → k < 5
    → has (active_constraints k default_relaxation_stages) c ≡ ltb k (drop_stage c)
unfolding active_constraints
active_default zero c h = ground arith
active_default (suc zero) c h = ground arith
active_default (suc (suc zero)) c h = ground arith
active_default (suc (suc (suc zero))) c h = ground arith
active_default (suc (suc (suc (suc zero)))) c h = ground arith
active_default (suc (suc (suc (suc (suc k))))) c h = absurd (omega arith)

-- One guard of the chain, of which less is enforced on the right.
gate_mono :
    (a b p x y : Bool)
    → (b ≡ true → a ≡ true)
    → (x ≡ true → y ≡ true)
    → (if a && not p then false else x) ≡ true
    → (if b && not p then false else y) ≡ true
gate_mono a b p x y sub rest h = ground arith

and_mono : (a b n : Bool) → (b ≡ true → a ≡ true) → b && n ≡ true → a && n ≡ true
and_mono a b n sub h = ground arith

satisfies_mono :
    (s c : QueueCandidate) (a b : List RelaxableConstraint)
    → ((x : RelaxableConstraint) → has b x ≡ true → has a x ≡ true)
    → satisfies_preferences s c a ≡ true
    → satisfies_preferences s c b ≡ true
unfolding satisfies_preferences
satisfies_mono s c a b sub = gate_mono (has a gender) (has b gender) _ _ _ (sub gender) (
    gate_mono _ _ _ _ _ (and_mono (has a country) (has b country) _ (sub country)) (
      gate_mono _ _ _ _ _ (and_mono (has a language) (has b language) _ (sub language)) (
        gate_mono _ _ _ _ _ (and_mono (has a age_bracket) (has b age_bracket) _ (sub age_bracket))
          (λ e. e))))

active_default_mono :
    (c : QueueCandidate) (now later : ℕ) (x : RelaxableConstraint)
    → now ≤ later
    → has
        (active_constraints
          (relaxation_stage_for c later default_relaxation_stages)
          default_relaxation_stages)
        x
      ≡ true
    → has
        (active_constraints
          (relaxation_stage_for c now default_relaxation_stages)
          default_relaxation_stages)
        x
      ≡ true
active_default_mono c now later x le h =
    let i = relaxation_stage_for c now default_relaxation_stages in
    let j = relaxation_stage_for c later default_relaxation_stages in
    let i<5 : i < 5 = relaxation_stage_bound c now default_relaxation_stages (λ e. cc) in
    let j<5 : j < 5 = relaxation_stage_bound c later default_relaxation_stages (λ e. cc) in
    ground (
      arith,
      active_default i x i<5,
      active_default j x j<5,
      relaxation_stage_mono c now later default_relaxation_stages le,
    )

module _ (now later : ℕ) (occupied : List ℕ) (le : now ≤ later) where
  abbrev at : ℕ → SelectOptions
  at t = record { now = t; stages = default_relaxation_stages; occupied_user_ids = occupied }

  accepts_later :
      (judge other : QueueCandidate)
      → accepts (at now) judge other ≡ true
      → accepts (at later) judge other ≡ true
  accepts_later judge other =
      satisfies_mono judge other _ _ (λ x. active_default_mono judge now later x le)

  -- With the default ladder a pairing that is legal stays legal for as long as both wait.
  pub Legal-later :
      (seeker c : QueueCandidate) → Legal seeker (at now) c → Legal seeker (at later) c
  Legal-later seeker c l = (l.0, accepts_later seeker c l.1, accepts_later c seeker l.2)

  -- So a seeker for whom someone could be selected never stops being matchable from the same pool.
  pub selectable_later :
      (seeker : QueueCandidate) (pool : List QueueCandidate)
      → select_best_match seeker pool (at now) ≢ none
      → select_best_match seeker pool (at later) ≢ none
  selectable_later seeker pool h e = h (
      (select_none_iff seeker (at now) pool).1 (λ c member legal.
        (select_none_iff seeker (at later) pool).0 e c member (Legal-later seeker c legal)))
