-- ===== src/Pairing/Tests.antt =====
-- The theorems about the matchmaker: two workers that want the same partner.
use trip2world.Pairing.Progress.{commit_alone, alone, Paired}
use trip2world.Prelude.{
  ℕ, ◌+◌, ◌≡◌, refl, ◌≢◌, true, false, none, some, List, [], ◌∷◌, arith, ◌==◌, if◌then◌else◌, Text,
  codes, text_eq,
}
use trip2world.Pairing.Candidate.{premium, CandidateInput}
use trip2world.Matching.Shards.{shard_for, to_upper_case, lookup_region, region_by_country, global}
use trip2world.Queue.Sets.{zadd, zinsert, zrem}
use trip2world.Matching.Best.{Legal}
use trip2world.Matching.Stages.{
  default_relaxation_stages, active_constraints, relaxation_stage_for, stage_loop,
}
use trip2world.Matching.Rules.{check_hard_rules, satisfies_preferences, gender_satisfied}
use trip2world.Pairing.Prepare.{
  Settings, Tick, prepare, prepare_finds, with_recent, options_of, prepare_sound,
}
use trip2world.Pairing.Locks.{locks}
use trip2world.Queue.Repository.{
  join, current_match, is_queued, claim_for_match, release_match, leave, record_recent_partner,
  size, enqueue_both, enqueue,
}
use trip2world.Pairing.Occupancy.{Start, Distinct, occupied, no_double_booking, nothing_left}
use trip2world.Pairing.Commit.{
  System, Action, act_all, locking_first, works, act, work, acquire, release_one, check_passes,
  finished, result_of,
}
use trip2world.Pairing.Types.{Job, World}
use trip2world.Queue.Indexed.{Indexed, perform_all-Indexed}
use trip2world.Queue.Commands.{QueueCall, perform_all, joins, perform, rejoins}
use trip2world.Queue.Store.{Store, json}
use trip2world.Matching.Types.{QueueCandidate, any_gender}

abbrev person : ℕ → Text → QueueCandidate
person id where_from = record {
  user_id = id;
  queued_at = 1000 + id;
  gender_of = none;
  country_of = some where_from;
  languages = [];
  age_bracket_of = none;
  interest_ids = [];
  preferred_gender = any_gender;
  preferred_countries = [];
  preferred_languages = [];
  preferred_age_brackets = [];
  excluded_user_ids = [];
  recent_partner_ids = [];
  priority = 0;
}

abbrev ana : QueueCandidate
ana = person 1 (codes "PT")

abbrev bia : QueueCandidate
bia = person 2 (codes "BR")

abbrev cai : QueueCandidate
cai = person 3 (codes "FR")

abbrev nobody : Store
nobody = record {
  entry = λ u. none;
  queue = λ sh. [];
  active_shards = [];
  user_match = λ u. none;
  match_of = λ m. none;
  match_lock = λ u. none;
  recent = λ u. [];
  skip_marker = λ u. false;
  block_cache = λ u. none;
}

abbrev three : Store
three = join cai (join bia (join ana nobody))

abbrev queued_calls : List QueueCall
queued_calls = joins ana ∷ joins bia ∷ joins cai ∷ []

three-Indexed : Indexed three
unfolding perform_all perform rejoins Indexed
three-Indexed = perform_all-Indexed queued_calls nobody (λ u c h. absurd (ground arith)) refl

-- Worker 0 pairs user 1 with user 2, every other worker user 3 with user 2.
abbrev job : ℕ → Job
job i = record {
  seeker_id = if i == 0 then 1 else 3;
  partner_id = 2;
  seeker_country = some (codes "PT");
  partner_country = some (codes "BR");
  shared_interest_ids = [];
  job_seeker_stage = 0;
  job_candidate_stage = 0;
  lock_token = 100 + i;
  new_match_id = 500 + i;
  cooldown_seconds = 60;
  on_node = 1;
}

abbrev world : World
world = record { redis = three; matches = [] }

abbrev system : System
system = record { world = world; phase = λ i. locking_first }

system-Start : Start job system
unfolding Start join current_match
system-Start = (λ i. refl, λ i u h. ground arith, λ i u h. ground arith)

matches_differ : Distinct (λ i. (job i).new_match_id)
matches_differ i k other e = other (omega arith)

tokens_differ : Distinct (λ i. (job i).lock_token)
tokens_differ i k other e = other (omega arith)

abbrev sixteen : ℕ → List Action → List Action
sixteen i rest =
    works i 5000 true
    ∷ works i 5000 true
    ∷ works i 5000 true
    ∷ works i 5000 true
    ∷ works i 5000 true
    ∷ works i 5000 true
    ∷ works i 5000 true
    ∷ works i 5000 true
    ∷ works i 5000 true
    ∷ works i 5000 true
    ∷ works i 5000 true
    ∷ works i 5000 true
    ∷ works i 5000 true
    ∷ works i 5000 true
    ∷ works i 5000 true
    ∷ works i 5000 true
    ∷ rest

-- Worker 0 takes its locks, worker 1 fails on one of them, worker 0 goes on to its end.
abbrev race : List Action
race = works 0 5000 true ∷ works 0 5000 true ∷ works 1 5000 true ∷ sixteen 0 []

winner_phase : (act_all job race system).phase 0 ≡ finished (some (result_of (job 0)))
unfolding act_all act work acquire release_one check_passes is_queued current_match claim_for_match
    release_match leave record_recent_partner join
winner_phase = refl

loser_phase : (act_all job race system).phase 1 ≡ finished none
unfolding act_all act work acquire release_one check_passes is_queued current_match claim_for_match
    release_match leave record_recent_partner join
loser_phase = refl

nothing_left_example : occupied (act_all job race system).world 3 ≢ some (job 1).new_match_id
nothing_left_example = nothing_left job matches_differ race system 1 3 system-Start loser_phase

-- Both locks of worker 0 are taken when worker 1 asks for its first, user 2.
abbrev contest : List Action
contest = works 0 5000 true ∷ works 0 5000 true ∷ works 1 5000 true ∷ []

taken : locks (job 0) ((act_all job contest system).phase 0) 2 ≡ true
unfolding act_all act work acquire join
taken = refl

commit_alone_example : Paired (job 0) 5000 false (alone 16 (job 0) 5000 false locking_first world)
unfolding is_queued current_match join
commit_alone_example =
    commit_alone (job 0) 5000 false world (λ e. omega arith) refl refl refl refl refl refl

-- Users 1 and 2, and users 3 and 4.
abbrev job_apart : ℕ → Job
job_apart i = record (job i) {
  partner_id = if i == 0 then 2 else 4;
  new_match_id = 500 + i;
  lock_token = 100 + i;
}

abbrev dee : QueueCandidate
dee = person 4 (codes "DE")

abbrev system_four : System
system_four = record {
  world = record { redis = join dee three; matches = [] };
  phase = λ i. locking_first;
}

abbrev interleaved : List Action
interleaved = works 0 5000 true ∷ works 1 5000 true ∷ sixteen 1 (sixteen 0 [])

system_four-Start : Start job_apart system_four
unfolding Start join current_match
system_four-Start = (λ i. refl, λ i u h. ground arith, λ i u h. ground arith)

apart_phases :
    ((act_all job_apart interleaved system_four).phase 0
      ≡ finished (some (result_of (job_apart 0))))
    × ((act_all job_apart interleaved system_four).phase 1
        ≡ finished (some (result_of (job_apart 1))))
unfolding act_all act work acquire release_one check_passes is_queued current_match claim_for_match
    release_match leave record_recent_partner join
apart_phases = (refl, refl)

no_double_booking_example :
    ((job_apart 0).seeker_id ≢ (job_apart 1).seeker_id)
    × ((job_apart 0).seeker_id ≢ (job_apart 1).partner_id)
    × ((job_apart 0).partner_id ≢ (job_apart 1).seeker_id)
    × ((job_apart 0).partner_id ≢ (job_apart 1).partner_id)
no_double_booking_example =
    no_double_booking job_apart (λ i k other e. other (omega arith)) interleaved system_four 0 1
      (result_of (job_apart 0)) (result_of (job_apart 1)) system_four-Start (λ e. ground arith) refl
      refl apart_phases.0 apart_phases.1

abbrev settings : Settings
settings = record { relaxation_stages = default_relaxation_stages; skip_cooldown_seconds = 60 }

abbrev tick : Tick
tick = record { tick_now = 5000; token = 100; fresh_match_id = 500; tick_node = 1 }

three_small : size global three ≡ 3
unfolding size join enqueue_both enqueue zadd zinsert zrem shard_for to_upper_case lookup_region
    region_by_country text_eq
three_small = refl

bia-Legal : Legal (with_recent tick three ana 1) (options_of settings tick) bia
unfolding check_hard_rules satisfies_preferences gender_satisfied active_constraints
    relaxation_stage_for stage_loop
bia-Legal = (refl, refl, refl)

entries :
    (three.entry 1 ≡ some (json ana))
    × (three.entry 2 ≡ some (json bia))
    × (current_match 1 three ≡ none)
unfolding join current_match
entries = (refl, refl, refl)

prepare_finds_example : (j : Job) × ((prepare settings tick 1 three).0 ≡ some j)
prepare_finds_example =
    prepare_finds settings tick 1 three ana bia 2 three-Indexed (omega (arith, three_small))
      entries.0 entries.2 (λ e. ground arith) entries.1 bia-Legal

found_job : (j : Job) × ((prepare settings tick 1 three).0 ≡ some j)
found_job =
    prepare_finds settings tick 1 three ana bia 2 three-Indexed (omega (arith, three_small))
      entries.0 entries.2 (λ e. ground arith) entries.1 bia-Legal

prepare_sound_example :
    (found_job.0.seeker_id ≡ 1)
    × (found_job.0.partner_id ≢ 1)
    × ((c : QueueCandidate) × (three.entry found_job.0.partner_id ≡ some (json c))
        × Legal (with_recent tick three ana 1) (options_of settings tick) c)
prepare_sound_example =
    prepare_sound settings tick 1 three ana found_job.0 three-Indexed entries.0 entries.2
      found_job.1

abbrev ending_world : World
ending_world = (act_all job race system).world

abbrev eva : CandidateInput
eva = record {
  input_user_id = 5;
  plan = premium;
  profile_gender = none;
  profile_country = some (codes "PT");
  profile_languages = [];
  profile_age_bracket = none;
  wanted_gender = any_gender;
  wanted_countries = [];
  wanted_languages = [];
  wanted_age_brackets = [];
  input_interest_ids = [];
  input_excluded_user_ids = [];
  input_recent_partner_ids = [];
  priority_queue_enabled = true;
}
