-- ===== src/Realtime/Kept.antt =====
-- The events of a socket that keep each occupied user in a room.
use trip2world.Prelude.{
  ℕ, refl, ap, ◌∙◌, inl, inr, Bool, not, ◌&&◌, Option, none, some, List, ltb, ◌==◌, Bool-cases,
  Option-cases, is_some,
}
use trip2world.Pairing.Prepare.{Settings, Tick}
use trip2world.Realtime.Endings.{cooldown_keeps}
use trip2world.Realtime.Safety.{
  BlockInput, ReportInput, user_block, user_report, end_named, put_block, file_report, reported_to,
}
use trip2world.Realtime.Matches.{on_store, teardown_match}
use trip2world.Queue.Repository.{
  check_skip_cooldown, resolve_peer, invalidate_blocks, cache_blocks, recent_partners,
  current_match, join, is_queued, get_cached_blocks,
}
use trip2world.Realtime.Hub.{Event, Sender, Hub, on_chat, allow, on_report, on_queue_join}
use trip2world.Realtime.Presence.{online, connected}
use trip2world.Pairing.Types.{skipped, ended, blocked, reported, MatchEndReason}
use trip2world.Realtime.Handlers.{
  SkipInput, SignalInput, match_skip, match_end, match_connected, relay, chat_message, relayed,
  chatted, present, queue_join, JoinInput, CandidateRow, join_checked, join_with, join_row,
  read_blocks, may_stay, Standing, restricted_as,
}
use trip2world.Realtime.Housed.{Housed, same-Housed, teardown-Housed, Unused, SameMatches}
use trip2world.Realtime.Keeping.{limited_keeps, with_peer_keeps, split_keeps}
use trip2world.Realtime.Attempts.{attempt-Housed}

pub skip-Housed :
    (db_up : Bool) (ttl min_seconds : ℕ) (s : Sender) (payload : Option SkipInput) (h : Hub)
    → Housed h
    → Housed (match_skip db_up ttl min_seconds s payload h).1
unfolding match_skip
skip-Housed db_up ttl min_seconds s none h inv = inv
skip-Housed db_up ttl min_seconds s (some d) h inv =
    elim (Bool-cases (ltb 0 (check_skip_cooldown ttl s.sender_id min_seconds h.world.redis).0)) [
      | inl soon ↦ rw soon spaced-Housed
      | inr fine ↦ rw fine (
          with_peer_keeps Housed (resolve_peer d.skip_match s.sender_id spaced.world.redis) s spaced
            _ spaced-Housed
            (λ v.
              teardown-Housed db_up s.at_time d.skip_match (some s.sender_id) skipped spaced
                spaced-Housed))
    ]
  where
    spaced : Hub
    spaced = on_store (λ x. (check_skip_cooldown ttl s.sender_id min_seconds h.world.redis).1) h

    spaced-Housed : Housed spaced
    spaced-Housed =
        let (rooms, users, _) = cooldown_keeps ttl s.sender_id min_seconds h.world.redis in
        same-Housed spaced h (users, rooms) inv

pub end-Housed :
    (db_up : Bool) (s : Sender) (m : Option ℕ) (h : Hub)
    → Housed h
    → Housed (match_end db_up s m h).1
unfolding match_end
end-Housed db_up s none h inv = inv
end-Housed db_up s (some m) h inv =
    with_peer_keeps Housed (resolve_peer m s.sender_id h.world.redis) s h _ inv (λ v.
      let torn = teardown_match db_up s.at_time m (some s.sender_id) ended h in
      same-Housed (present s online torn.1) torn.1 (refl, refl)
        (teardown-Housed db_up s.at_time m (some s.sender_id) ended h inv))

pub connected-Housed :
    (s : Sender) (m : Option ℕ) (h : Hub) → Housed h → Housed (match_connected s m h).1
unfolding match_connected
connected-Housed s none h inv = inv
connected-Housed s (some m) h inv = elim (Option-cases (resolve_peer m s.sender_id h.world.redis)) [
  | inl e ↦ rw (match_connected, e) inv
  | inr (v, e) ↦ rw (match_connected, e) (same-Housed (present s connected h) h (refl, refl) inv)
]

pub frames-Housed :
    (e : Event) (s : Sender) (payload : Option SignalInput) (h : Hub)
    → Housed h
    → Housed (relay e s payload h).1 × Housed (chat_message s payload h).1
unfolding relay chat_message allow
frames-Housed e s payload h inv = (
  limited_keeps Housed s (allow s e 300 60000 h) (relayed e s payload)
      (same-Housed (allow s e 300 60000 h).1 h (refl, refl) inv)
      (relay_body payload (allow s e 300 60000 h).1),
  limited_keeps Housed s (allow s on_chat 25 15000 h) (chatted s payload)
      (same-Housed (allow s on_chat 25 15000 h).1 h (refl, refl) inv)
      (chat_body payload (allow s on_chat 25 15000 h).1),
)
  where
    relay_body : (o : Option SignalInput) (g : Hub) → Housed g → Housed (relayed e s o g).1
    relay_body none g i = i
    relay_body (some d) g i =
        with_peer_keeps Housed (resolve_peer d.signal_match s.sender_id g.world.redis) s g _ i
          (λ v. i)

    chat_body : (o : Option SignalInput) (g : Hub) → Housed g → Housed (chatted s o g).1
    chat_body none g i = i
    chat_body (some d) g i =
        with_peer_keeps Housed (resolve_peer d.signal_match s.sender_id g.world.redis) s g _ i
          (λ v. i)

read_blocks_matches :
    (o : Option (List ℕ)) (u : ℕ) (h : Hub)
    → SameMatches (read_blocks o u h).1.world.redis h.world.redis
unfolding read_blocks cache_blocks
read_blocks_matches none u h = (refl, refl)
read_blocks_matches (some ids) u h = (refl, refl)

module _ (cfg : Settings) (t : Tick) (db_up : Bool) (exists : ℕ → Bool) (s : Sender) where
  join_with-Housed :
      (d : JoinInput) (row : CandidateRow) (h : Hub)
      → Unused t h
      → Housed h
      → Housed (join_with cfg t db_up exists s d row h).1
  unfolding join_with recent_partners join
  join_with-Housed d row h unused inv =
      let cached = get_cached_blocks s.sender_id h.world.redis in
      let (users, rooms) = read_blocks_matches cached s.sender_id h in
      attempt-Housed cfg t db_up exists s.sender_id _ (ap (λ x. x t.fresh_match_id) rooms ∙ unused)
        (same-Housed _ h (users, rooms) inv)

  checked-Housed :
      (standing : Standing) (payload : Option JoinInput) (row : Option CandidateRow) (h : Hub)
      → Unused t h
      → Housed h
      → Housed (join_checked cfg t db_up exists standing s payload row h).1
  unfolding join_checked
  checked-Housed standing none row h unused inv = inv
  checked-Housed (restricted_as is_banned) (some d) row h unused inv = inv
  checked-Housed may_stay (some d) row h unused inv =
      split_keeps Housed (is_some (current_match s.sender_id h.world.redis)) _ _ inv (
        split_keeps Housed (not d.has_camera && not d.has_microphone) _ _ inv
          (split_keeps Housed (is_queued s.sender_id h.world.redis) _ _ inv (by_row row)))
    where
      by_row : (o : Option CandidateRow) → Housed (join_row cfg t db_up exists s d o h).1
      by_row none = inv
      by_row (some r) = join_with-Housed d r h unused inv

  pub join-Housed :
      (standing : Standing) (payload : Option JoinInput) (row : Option CandidateRow) (h : Hub)
      → Unused t h
      → Housed h
      → Housed (queue_join cfg t db_up exists standing s payload row h).1
  unfolding queue_join allow
  join-Housed standing payload row h unused inv =
      limited_keeps Housed s (allow s on_queue_join 60 60000 h)
        (join_checked cfg t db_up exists standing s payload row)
        (same-Housed (allow s on_queue_join 60 60000 h).1 h (refl, refl) inv)
        (checked-Housed standing payload row (allow s on_queue_join 60 60000 h).1 unused)

named-Housed :
    (db_up : Bool) (s : Sender) (m : Option ℕ) (reason : MatchEndReason) (h : Hub)
    → Housed h
    → Housed (end_named db_up s m reason h).1
unfolding end_named
named-Housed db_up s none reason h inv = inv
named-Housed db_up s (some m) reason h inv =
    teardown-Housed db_up s.at_time m (some s.sender_id) reason h inv

put_block-Housed : (a b : ℕ) (h : Hub) → Housed h → Housed (put_block a b h)
unfolding put_block invalidate_blocks
put_block-Housed a b h inv = same-Housed (put_block a b h) h (refl, refl) inv

pub block-Housed :
    (db_up : Bool) (s : Sender) (payload : Option BlockInput) (h : Hub)
    → Housed h
    → Housed (user_block db_up s payload h).1
unfolding user_block
block-Housed db_up s none h inv = inv
block-Housed db_up s (some d) h inv = elim (Bool-cases (d.block_target == s.sender_id)) [
  | inl own ↦ rw own inv
  | inr other ↦ rw other (
      named-Housed db_up s d.block_match blocked (put_block s.sender_id d.block_target h)
        (put_block-Housed s.sender_id d.block_target h inv))
]

pub report-Housed :
    (db_up : Bool) (s : Sender) (payload : Option ReportInput) (h : Hub)
    → Housed h
    → Housed (user_report db_up s payload h).1
unfolding user_report allow
report-Housed db_up s payload h inv =
    limited_keeps Housed s (allow s on_report 10 3600000 h) (reported_to db_up s payload)
      (same-Housed (allow s on_report 10 3600000 h).1 h (refl, refl) inv)
      (by_payload payload (allow s on_report 10 3600000 h).1)
  where
    filed : (d : ReportInput) (g : Hub) → Housed g → Housed (file_report s d g)
    filed d g i = same-Housed (file_report s d g) g (refl, refl) i

    by_payload : (o : Option ReportInput) (g : Hub) → Housed g → Housed (reported_to db_up s o g).1
    by_payload none g i = i
    by_payload (some d) g i = elim (Bool-cases (d.report_target == s.sender_id)) [
      | inl own ↦ rw own i
      | inr other ↦ elim (Bool-cases d.also_block) [
        | inl both ↦
            rw (other, both)
              (named-Housed db_up s d.report_match reported _
                (put_block-Housed s.sender_id d.report_target (file_report s d g) (filed d g i)))
        | inr alone ↦
            rw (other, alone) (named-Housed db_up s d.report_match reported _ (filed d g i))
      ]
    ]
