-- ===== src/Pairing/Types.antt =====
-- The data of the matchmaker. A worker is one call of `tryMatch` that has chosen its partner, on any
-- node; its `Job` holds the values that the call has computed by then.
use trip2world.Prelude.Dict.{Dict}
use trip2world.Queue.Store.{Store}
use trip2world.Prelude.{ℕ, Bool, Option, List, Text}

pub data MatchEndReason : Type 0 where
  skipped ended disconnected reported blocked timeout error server_shutdown moderated :
      MatchEndReason

pub record Participant : Type 0 where
  pub user_id : ℕ
  pub was_initiator : Bool
  pub left_at : Option ℕ

-- The `Match` row and its participants.
pub record MatchRow : Type 0 where
  pub node_id : ℕ
  pub seeker_stage : ℕ
  pub candidate_stage : ℕ
  pub started_at : ℕ
  pub ended_at : Option ℕ
  pub end_reason : Option MatchEndReason
  pub ended_by_id : Option ℕ
  pub duration_seconds : Option ℕ
  pub participants : List Participant

pub record Job : Type 0 where
  pub seeker_id : ℕ
  pub partner_id : ℕ
  pub seeker_country : Option Text
  pub partner_country : Option Text
  pub shared_interest_ids : List Text
  pub job_seeker_stage : ℕ
  pub job_candidate_stage : ℕ
  pub lock_token : ℕ
  pub new_match_id : ℕ
  pub cooldown_seconds : ℕ
  pub on_node : ℕ

pub record Side : Type 0 where
  pub side_id : ℕ
  pub is_initiator : Bool

pub record MatchResult : Type 0 where
  pub match_id : ℕ
  pub seeker_side : Side
  pub partner_side : Side
  pub result_interest_ids : List Text
  pub result_seeker_stage : ℕ
  pub result_candidate_stage : ℕ

-- Redis, and the `Match` table.
pub record World : Type 0 where
  pub redis : Store
  pub matches : Dict MatchRow
