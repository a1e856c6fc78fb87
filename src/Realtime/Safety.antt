-- ===== src/Realtime/Safety.antt =====
-- The events `user:block` and `user:report`.
use trip2world.Prelude.{
  ℕ, Bool, false, ◌&&◌, Option, none, some, List, [], ◌∷◌, ◌==◌, if◌then◌else◌, any,
}
use trip2world.Queue.Repository.{invalidate_blocks}
use trip2world.Pairing.Types.{MatchEndReason, blocked, reported}
use trip2world.Realtime.Hub.{
  Hub, Answer, Sender, BlockRow, on_report, reply, fail, allow, limited, invalid_payload,
  match_ended, acknowledged,
}
use trip2world.Realtime.Matches.{teardown_match, on_store}
use trip2world.Realtime.Handlers.{also}

pub record BlockInput : Type 0 where
  pub block_target : ℕ
  pub block_match : Option ℕ

abbrev pub is_block : ℕ → ℕ → BlockRow → Bool
is_block a b row = (row.blocker_id == a) && (row.blocked_user_id == b)

-- `block.upsert`
unfoldable pub upsert_block : ℕ → ℕ → List BlockRow → List BlockRow
upsert_block a b rows =
    if any (is_block a b) rows then rows else record { blocker_id = a; blocked_user_id = b } ∷ rows

-- The row, and the caches of both users.
unfoldable pub put_block : ℕ → ℕ → Hub → Hub
put_block a b h =
    on_store (λ x. invalidate_blocks b (invalidate_blocks a x))
      (record h { blocks = upsert_block a b h.blocks })

-- The match that the payload names, if it names one.
unfoldable pub end_named : Bool → Sender → Option ℕ → MatchEndReason → Hub → Answer
end_named db_up s none reason h = ([], h)
end_named db_up s (some m) reason h =
    also (teardown_match db_up s.at_time m (some s.sender_id) reason h)
      (reply s (match_ended m reason false) ∷ [])

unfoldable pub user_block : Bool → Sender → Option BlockInput → Hub → Answer
user_block db_up s none h = fail s invalid_payload h
user_block db_up s (some d) h =
    if d.block_target == s.sender_id
    then fail s invalid_payload h
    else also (end_named db_up s d.block_match blocked (put_block s.sender_id d.block_target h))
        (reply s acknowledged ∷ [])

pub record ReportInput : Type 0 where
  pub report_target : ℕ
  pub report_match : Option ℕ
  pub also_block : Bool

abbrev pub file_report : Sender → ReportInput → Hub → Hub
file_report s d h = record h {
  report_rows =
      record {
        reporter_id = s.sender_id;
        reported_user_id = d.report_target;
        reported_match = d.report_match;
      }
      ∷ h.report_rows;
}

abbrev pub reported_to : Bool → Sender → Option ReportInput → Hub → Answer
reported_to db_up s none h = fail s invalid_payload h
reported_to db_up s (some d) h =
    if d.report_target == s.sender_id
    then fail s invalid_payload h
    else also
        (end_named db_up s d.report_match reported (
          if d.also_block
          then put_block s.sender_id d.report_target (file_report s d h)
          else file_report s d h))
        (reply s acknowledged ∷ [])

unfoldable pub user_report : Bool → Sender → Option ReportInput → Hub → Answer
user_report db_up s payload h =
    limited s (allow s on_report 10 3600000 h) (reported_to db_up s payload)
