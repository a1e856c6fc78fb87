-- ===== src/Realtime/Matches.antt =====
-- `teardownMatch`, `announceMatch` and `attemptMatch` of the server, and its tick.
use trip2world.Prelude.{
  ℕ, Bool, true, false, ◌&&◌, Option, none, some, List, [], ◌∷◌, ◌==◌, if◌then◌else◌,
}
use trip2world.Queue.Store.{Store, MatchRecord}
use trip2world.Queue.Repository.{get_match_participants, save_match, delete_match}
use trip2world.Pairing.Types.{World, MatchEndReason, MatchResult, Job}
use trip2world.Pairing.Commit.{on_redis, Phase, finished, locking_first}
use trip2world.Pairing.Ending.{end_match}
use trip2world.Pairing.Prepare.{Settings, Tick, prepare}
use trip2world.Pairing.Progress.{alone}
use trip2world.Realtime.Hub.{Hub, Answer, Frame, tell, match_found, partner_left}

abbrev pub on_world : (World → World) → Hub → Hub
on_world f h = record h { world = f h.world }

abbrev pub on_store : (Store → Store) → Hub → Hub
on_store f h = on_world (λ w. on_redis (f w.redis) w) h

-- `actorId === userA ? userB : actorId === userB ? userA : null`, where the actor may be null.
abbrev pub peer_of : MatchRecord → Option ℕ → Option ℕ
peer_of p none = none
peer_of p (some a) =
    if a == p.user_a then some p.user_b else (if a == p.user_b then some p.user_a else none)

abbrev pub tell_peer : Option ℕ → ℕ → MatchEndReason → List Frame
tell_peer none m reason = []
tell_peer (some u) m reason = tell u (partner_left m reason) ∷ []

unfoldable pub teardown_found :
    Bool → ℕ → ℕ → Option ℕ → MatchEndReason → Option MatchRecord → Hub → Answer
teardown_found db_up now m who reason none h = ([], h)
teardown_found db_up now m who reason (some p) h = (
  tell_peer (peer_of p who) m reason,
  on_store (delete_match m)
      (on_world (end_match db_up m (p.user_a ∷ p.user_b ∷ []) reason who now) h),
)

unfoldable pub teardown_match : Bool → ℕ → ℕ → Option ℕ → MatchEndReason → Hub → Answer
teardown_match db_up now m who reason h =
    teardown_found db_up now m who reason (get_match_participants m h.world.redis) h

-- `exists` is whether the profile of a user can be loaded.
unfoldable pub announce_match : (ℕ → Bool) → MatchResult → Hub → Answer
announce_match exists r h =
    let saved = on_store (save_match r.match_id r.seeker_side.side_id r.partner_side.side_id) h in
    if exists r.seeker_side.side_id && exists r.partner_side.side_id
    then (
      tell r.seeker_side.side_id
            (match_found r.match_id r.partner_side.side_id r.seeker_side.is_initiator)
          ∷ tell r.partner_side.side_id
              (match_found r.match_id r.seeker_side.side_id r.partner_side.is_initiator)
          ∷ [],
      saved,
    )
    else ([], saved)

-- `tryMatch` with nobody else at work in between: a scan, and a worker's sixteen turns.
abbrev pub result_in : Phase → Option MatchResult
result_in (finished r) = r
result_in _ = none

unfoldable pub work_job : Option Job → ℕ → Bool → World → Option MatchResult × World
work_job none now db_up w = (none, w)
work_job (some j) now db_up w = let r = alone 16 j now db_up locking_first w in (result_in r.0, r.1)

unfoldable pub try_match : Settings → Tick → Bool → ℕ → World → Option MatchResult × World
try_match cfg t db_up u w =
    let r = prepare cfg t u w.redis in work_job r.0 t.tick_now db_up (on_redis r.1 w)

abbrev pub announce_result : (ℕ → Bool) → Option MatchResult → Hub → Bool × Answer
announce_result exists none h = (false, ([], h))
announce_result exists (some r) h = (true, announce_match exists r h)

unfoldable pub attempt_match : Settings → Tick → Bool → (ℕ → Bool) → ℕ → Hub → Bool × Answer
attempt_match cfg t db_up exists u h =
    let r = try_match cfg t db_up u h.world in announce_result exists r.0 (record h { world = r.1 })
