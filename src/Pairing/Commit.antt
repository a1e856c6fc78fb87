-- ===== src/Pairing/Commit.antt =====
-- `tryMatch` from the pairing locks on, one command to Redis or to the database at a time, so that the
-- commands of other workers can come between any two of them.
use trip2world.Prelude.Dict.{Dict, insert}
use trip2world.Queue.Repository.{
  is_queued, claim_for_match, current_match, release_match, leave, join, record_recent_partner,
}
use trip2world.Matching.Types.{QueueCandidate}
use trip2world.Queue.Store.{Store, set_nx, release_if}
use trip2world.Pairing.Types.{MatchResult, Job, World, MatchRow}
use trip2world.Prelude.{
  ℕ, Bool, true, false, not, ◌&&◌, Option, none, some, List, [], ◌∷◌, ltb, if◌then◌else◌, is_some,
  Text, at_key,
}

-- The four reads under the lock, in the order in which they are sent.
pub data Check : Type 0 where
  still_queued not_busy : ℕ → Check

-- Where a worker stands: the next command that it sends.
pub data Phase : Type 0 where
  locking_first locking_second undoing_first : Phase
  verifying : List Check → Bool → Phase
  claiming_seeker claiming_partner rolling_back : Phase
  leaving_seeker leaving_partner persisting recording_seeker recording_partner : Phase
  releasing_first releasing_second finished : Option MatchResult → Phase

-- `userA < userB ? [userA, userB] : [userB, userA]`
abbrev pub first_id : Job → ℕ
first_id j = if ltb j.seeker_id j.partner_id then j.seeker_id else j.partner_id

abbrev pub second_id : Job → ℕ
second_id j = if ltb j.seeker_id j.partner_id then j.partner_id else j.seeker_id

abbrev pub checks : Job → List Check
checks j =
    still_queued j.seeker_id
    ∷ still_queued j.partner_id
    ∷ not_busy j.seeker_id
    ∷ not_busy j.partner_id
    ∷ []

unfoldable pub check_passes : Check → Store → Bool
check_passes (still_queued u) s = is_queued u s
check_passes (not_busy u) s = not (is_some (current_match u s))

-- SET of a lock with NX, and the script that releases it.
unfoldable pub acquire : ℕ → ℕ → Store → Bool × Store
acquire u token s = let r = set_nx s.match_lock u token in (r.0, record s { match_lock = r.1 })

unfoldable pub release_one : ℕ → ℕ → Store → Store
release_one u token s = record s { match_lock = release_if s.match_lock u token }

abbrev pub new_row : Job → ℕ → MatchRow
new_row j now = record {
  node_id = j.on_node;
  seeker_stage = j.job_seeker_stage;
  candidate_stage = j.job_candidate_stage;
  started_at = now;
  ended_at = none;
  end_reason = none;
  ended_by_id = none;
  duration_seconds = none;
  participants =
      record { user_id = j.seeker_id; was_initiator = true; left_at = none }
      ∷ record { user_id = j.partner_id; was_initiator = false; left_at = none }
      ∷ [];
}

-- A write that fails is logged and leaves the table as it was.
unfoldable pub persist_match : Bool → Job → ℕ → Dict MatchRow → Dict MatchRow
persist_match db_up j now rows = if db_up then insert j.new_match_id (new_row j now) rows else rows

abbrev pub result_of : Job → MatchResult
result_of j = record {
  match_id = j.new_match_id;
  seeker_side = record { side_id = j.seeker_id; is_initiator = true };
  partner_side = record { side_id = j.partner_id; is_initiator = false };
  result_interest_ids = j.shared_interest_ids;
  result_seeker_stage = j.job_seeker_stage;
  result_candidate_stage = j.job_candidate_stage;
}

abbrev pub on_redis : Store → World → World
on_redis s w = record w { redis = s }

-- One command of a worker: `now` is the clock, `db_up` whether the database answers.
unfoldable pub work : Job → ℕ → Bool → Phase → World → Phase × World
work j now db_up locking_first w =
    let r = acquire (first_id j) j.lock_token w.redis in
    (if r.0 then locking_second else finished none, on_redis r.1 w)
work j now db_up locking_second w =
    let r = acquire (second_id j) j.lock_token w.redis in
    (if r.0 then verifying (checks j) true else undoing_first, on_redis r.1 w)
work j now db_up undoing_first w =
    (finished none, on_redis (release_one (first_id j) j.lock_token w.redis) w)
work j now db_up (verifying [] ok) w = (if ok then claiming_seeker else releasing_first none, w)
work j now db_up (verifying (c ∷ cs) ok) w = (verifying cs (ok && check_passes c w.redis), w)
work j now db_up claiming_seeker w =
    let r = claim_for_match j.seeker_id j.new_match_id w.redis in
    (if r.0 then claiming_partner else releasing_first none, on_redis r.1 w)
work j now db_up claiming_partner w =
    let r = claim_for_match j.partner_id j.new_match_id w.redis in
    (if r.0 then leaving_seeker else rolling_back, on_redis r.1 w)
work j now db_up rolling_back w =
    (releasing_first none, on_redis (release_match j.seeker_id j.new_match_id w.redis) w)
work j now db_up leaving_seeker w =
    (leaving_partner, on_redis (leave j.seeker_id j.seeker_country w.redis) w)
work j now db_up leaving_partner w =
    (persisting, on_redis (leave j.partner_id j.partner_country w.redis) w)
work j now db_up persisting w =
    (recording_seeker, record w { matches = persist_match db_up j now w.matches })
work j now db_up recording_seeker w = (
  recording_partner,
  on_redis (record_recent_partner now j.seeker_id j.partner_id j.cooldown_seconds w.redis) w,
)
work j now db_up recording_partner w = (
  releasing_first (some (result_of j)),
  on_redis (record_recent_partner now j.partner_id j.seeker_id j.cooldown_seconds w.redis) w,
)
work j now db_up (releasing_first r) w =
    (releasing_second r, on_redis (release_one (first_id j) j.lock_token w.redis) w)
work j now db_up (releasing_second r) w =
    (finished r, on_redis (release_one (second_id j) j.lock_token w.redis) w)
work j now db_up (finished r) w = (finished r, w)

-- What happens in a system of workers. `occupancy_ends` is an end of a match for one user, or the TTL of
-- the user's occupancy; `lock_expires` is the TTL of a lock.
pub data Action : Type 0 where
  works : ℕ → ℕ → Bool → Action
  lock_expires : ℕ → Action
  occupancy_ends : ℕ → ℕ → Action
  user_joins : QueueCandidate → Action
  user_leaves : ℕ → Option Text → Action

pub record System : Type 0 where
  pub world : World
  pub phase : ℕ → Phase

unfoldable pub act : (ℕ → Job) → Action → System → System
act jobs (works i now db_up) y =
    let r = work (jobs i) now db_up (y.phase i) y.world in
    record { world = r.1; phase = at_key y.phase i r.0 }
act jobs (lock_expires u) y = record y {
  world =
      on_redis (record y.world.redis { match_lock = at_key y.world.redis.match_lock u none })
        y.world;
}
act jobs (occupancy_ends u m) y = record y {
  world = on_redis (release_match u m y.world.redis) y.world;
}
act jobs (user_joins c) y = record y { world = on_redis (join c y.world.redis) y.world }
act jobs (user_leaves u co) y = record y { world = on_redis (leave u co y.world.redis) y.world }

unfoldable pub act_all : (ℕ → Job) → List Action → System → System
act_all jobs [] y = y
act_all jobs (a ∷ actions) y = act_all jobs actions (act jobs a y)
