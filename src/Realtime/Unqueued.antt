-- ===== src/Realtime/Unqueued.antt =====
-- The rest of what the server handles puts nobody into the queue either, and so no run does without a
-- `queue:join` of the user.
use trip2world.Prelude.{
  ℕ, ◌≡◌, refl, inl, inr, Bool, true, false, not, ◌&&◌, Option, none, some, List, [], ◌∷◌, arith,
  ltb, ◌==◌, if◌then◌else◌, Option-cases, is_some, any, Text,
}
use trip2world.Matching.Shards.{global}
use trip2world.Realtime.Housed.{free_user}
use trip2world.Realtime.Safety.{
  BlockInput, ReportInput, user_block, user_report, end_named, put_block, file_report, reported_to,
}
use trip2world.Realtime.Presence.{disconnect}
use trip2world.Realtime.Lifecycle.{
  wait_hint, sweep_user, sweep, drain, after_sweep, drain_current, disconnection, end_current,
  connection, presence_heartbeat, tick, shutdown,
}
use trip2world.Queue.Store.{Entry, json, corrupt}
use trip2world.Realtime.Keeping.{limited_keeps, split_keeps, with_peer_keeps}
use trip2world.Realtime.Endings.{cooldown_keeps}
use trip2world.Realtime.Handlers.{
  SkipInput, match_skip, match_end, match_connected, SignalInput, relay, chat_message, relayed,
  chatted, queue_leave,
}
use trip2world.Pairing.Types.{
  MatchEndReason, disconnected, server_shutdown, skipped, ended, blocked, reported,
}
use trip2world.Pairing.Prepare.{Settings, Tick}
use trip2world.Queue.Repository.{
  current_match, is_queued, get_entry, read_entry, resolve_peer, check_skip_cooldown,
  invalidate_blocks, size,
}
use trip2world.Realtime.Matches.{on_store, attempt_match}
use trip2world.Realtime.Hub.{Hub, Sender, Answer, allow, Event, on_chat, on_report}
use trip2world.Realtime.Events.{
  Occurrence, handle, handle_all, joins, leaves, skips, ends_match, connects_match, signals, chats,
  blocks_user, reports_user, opens, beats_heart, closes, timer, shuts_down, occupancy_lost,
}
use trip2world.Realtime.Absent.{
  Absent, is_join_of, same-Absent, teardown-Absent, leave-Absent, attempt-Absent, join-Absent,
}

module _ (u : ℕ) (cfg : Settings) (db_up : Bool) (exists : ℕ → Bool) where
  hint-Absent :
      (now searching v : ℕ) (h : Hub)
      → Absent u h
      → Absent u (wait_hint cfg now searching v (get_entry v h.world.redis) h).1
  unfolding get_entry read_entry Absent
  hint-Absent now searching v h e = by_entry (h.world.redis.entry v)
    where
      by_entry :
          (o : Option Entry)
          → Absent u (wait_hint cfg now searching v (read_entry o v h.world.redis) h).1
      by_entry none = e
      by_entry (some corrupt) = ground (arith, e)
      by_entry (some (json c)) = e

  turn-Absent :
      (t : Tick) (searching v : ℕ) (h : Hub)
      → Absent u h
      → Absent u (sweep_user cfg t db_up exists searching v h).1
  unfolding sweep_user
  turn-Absent t searching v h e =
      split_keeps (Absent u)
        (is_queued v h.world.redis && not (is_some (current_match v h.world.redis))) _ _
        (after (attempt_match cfg t db_up exists v h) (attempt-Absent u cfg db_up exists t v h e)) e
    where
      after :
          (r : Bool × Answer)
          → Absent u r.1.1
          → Absent u (after_sweep cfg t.tick_now searching v r).1
      after (true, r) i = i
      after (false, r) i = hint-Absent t.tick_now searching v r.1 i

  sweep-Absent :
      (searching : ℕ) (us : List (ℕ × Tick)) (h : Hub)
      → Absent u h
      → Absent u (sweep cfg db_up exists searching us h).1
  unfolding sweep
  sweep-Absent searching [] h e = e
  sweep-Absent searching ((v, t) ∷ us) h e =
      sweep-Absent searching us (sweep_user cfg t db_up exists searching v h).1
        (turn-Absent t searching v h e)

  drain-Absent : (now : ℕ) (us : List ℕ) (h : Hub) → Absent u h → Absent u (drain db_up now us h)
  unfolding drain
  drain-Absent now [] h e = e
  drain-Absent now (v ∷ us) h e =
      drain-Absent now us _ (leave-Absent u v none _ (by_match (current_match v h.world.redis)))
    where
      by_match : (o : Option ℕ) → Absent u (drain_current db_up now o h)
      by_match none = e
      by_match (some m) = teardown-Absent u db_up now m none server_shutdown h e

  pub skip-Absent :
      (ttl min_seconds : ℕ) (s : Sender) (payload : Option SkipInput) (h : Hub)
      → Absent u h
      → Absent u (match_skip db_up ttl min_seconds s payload h).1
  unfolding match_skip
  skip-Absent ttl min_seconds s none h e = e
  skip-Absent ttl min_seconds s (some d) h e =
      let r = check_skip_cooldown ttl s.sender_id min_seconds h.world.redis in
      let (_, _, entries) = cooldown_keeps ttl s.sender_id min_seconds h.world.redis in
      let spaced : Hub = on_store (λ x. r.1) h in
      let still : Absent u spaced = same-Absent u spaced h entries e in
      split_keeps (Absent u) (ltb 0 r.0) _ _ still (
        with_peer_keeps (Absent u) (resolve_peer d.skip_match s.sender_id spaced.world.redis) s
          spaced _ still
          (λ v.
            teardown-Absent u db_up s.at_time d.skip_match (some s.sender_id) skipped spaced still))

  end-Absent :
      (s : Sender) (m : Option ℕ) (h : Hub)
      → Absent u h
      → Absent u (match_end db_up s m h).1 × Absent u (match_connected s m h).1
  unfolding match_end match_connected Absent
  end-Absent s none h e = (e, e)
  end-Absent s (some m) h e = (
    with_peer_keeps (Absent u) (resolve_peer m s.sender_id h.world.redis) s h _ e
        (λ v. teardown-Absent u db_up s.at_time m (some s.sender_id) ended h e),
    elim (Option-cases (resolve_peer m s.sender_id h.world.redis)) [
      | inl f ↦ rw (match_connected, f) e
      | inr (v, f) ↦ rw (match_connected, f) e
    ],
  )

  frames-Absent :
      (x : Event) (s : Sender) (payload : Option SignalInput) (h : Hub)
      → Absent u h
      → Absent u (relay x s payload h).1 × Absent u (chat_message s payload h).1
  unfolding relay chat_message allow
  frames-Absent x s payload h e = (
    limited_keeps (Absent u) s (allow s x 300 60000 h) (relayed x s payload)
        (same-Absent u _ h refl e) (relay_body payload (allow s x 300 60000 h).1),
    limited_keeps (Absent u) s (allow s on_chat 25 15000 h) (chatted s payload)
        (same-Absent u _ h refl e) (chat_body payload (allow s on_chat 25 15000 h).1),
  )
    where
      relay_body : (o : Option SignalInput) (g : Hub) → Absent u g → Absent u (relayed x s o g).1
      relay_body none g i = i
      relay_body (some d) g i =
          with_peer_keeps (Absent u) (resolve_peer d.signal_match s.sender_id g.world.redis) s g _ i
            (λ v. i)

      chat_body : (o : Option SignalInput) (g : Hub) → Absent u g → Absent u (chatted s o g).1
      chat_body none g i = i
      chat_body (some d) g i =
          with_peer_keeps (Absent u) (resolve_peer d.signal_match s.sender_id g.world.redis) s g _ i
            (λ v. i)

  named-Absent :
      (s : Sender) (m : Option ℕ) (reason : MatchEndReason) (h : Hub)
      → Absent u h
      → Absent u (end_named db_up s m reason h).1
  unfolding end_named
  named-Absent s none reason h e = e
  named-Absent s (some m) reason h e =
      teardown-Absent u db_up s.at_time m (some s.sender_id) reason h e

  block-Absent :
      (s : Sender) (payload : Option BlockInput) (h : Hub)
      → Absent u h
      → Absent u (user_block db_up s payload h).1
  unfolding user_block put_block invalidate_blocks
  block-Absent s none h e = e
  block-Absent s (some d) h e = split_keeps (Absent u) (d.block_target == s.sender_id) _ _ e (
      named-Absent s d.block_match blocked (put_block s.sender_id d.block_target h)
        (same-Absent u _ h refl e))

  report-Absent :
      (s : Sender) (payload : Option ReportInput) (h : Hub)
      → Absent u h
      → Absent u (user_report db_up s payload h).1
  unfolding user_report put_block invalidate_blocks allow
  report-Absent s payload h e =
      limited_keeps (Absent u) s (allow s on_report 10 3600000 h) (reported_to db_up s payload)
        (same-Absent u _ h refl e) (by_payload payload (allow s on_report 10 3600000 h).1)
    where
      filed :
          (d : ReportInput) (b : Bool) (g : Hub)
          → Absent u g
          → Absent u (
              if b
              then put_block s.sender_id d.report_target (file_report s d g)
              else file_report s d g)
      filed d true g i = same-Absent u _ g refl i
      filed d false g i = same-Absent u _ g refl i

      by_payload :
          (o : Option ReportInput) (g : Hub) → Absent u g → Absent u (reported_to db_up s o g).1
      by_payload none g i = i
      by_payload (some d) g i =
          split_keeps (Absent u) (d.report_target == s.sender_id) _ _ i
            (named-Absent s d.report_match reported _ (filed d d.also_block g i))

  close-Absent :
      (country : Option Text) (s : Sender) (h : Hub)
      → Absent u h
      → Absent u (disconnection db_up country s h).1
  unfolding disconnection
  close-Absent country s h e =
      split_keeps (Absent u) (disconnect s.sender_id s.socket_id h.presence).0 _ _
        (leave-Absent u s.sender_id country _ (by_match (current_match s.sender_id h.world.redis)))
        left-Absent
    where
      left : Hub
      left = record h { presence = (disconnect s.sender_id s.socket_id h.presence).1 }

      left-Absent : Absent u left
      left-Absent = same-Absent u left h refl e

      by_match : (o : Option ℕ) → Absent u (end_current db_up s.at_time o s.sender_id left).1
      by_match none = left-Absent
      by_match (some m) =
          teardown-Absent u db_up s.at_time m (some s.sender_id) disconnected left left-Absent

  handle-Absent :
      (o : Occurrence) (h : Hub)
      → is_join_of u o ≡ false
      → Absent u h
      → Absent u (handle cfg db_up exists o h).1
  unfolding handle queue_leave connection presence_heartbeat tick shutdown free_user
  handle-Absent (joins t standing s payload row) h apart e =
      join-Absent u cfg db_up exists t standing s payload row h apart e
  handle-Absent (leaves country s) h apart e =
      same-Absent u _ _ refl (leave-Absent u s.sender_id country h e)
  handle-Absent (skips ttl min_seconds s payload) h apart e =
      skip-Absent ttl min_seconds s payload h e
  handle-Absent (ends_match s m) h apart e = (end-Absent s m h e).0
  handle-Absent (connects_match s m) h apart e = (end-Absent s m h e).1
  handle-Absent (signals x s payload) h apart e = (frames-Absent x s payload h e).0
  handle-Absent (chats s payload) h apart e = (frames-Absent on_chat s payload h e).1
  handle-Absent (blocks_user s payload) h apart e = block-Absent s payload h e
  handle-Absent (reports_user s payload) h apart e = report-Absent s payload h e
  handle-Absent (opens this_node s) h apart e = same-Absent u _ h refl e
  handle-Absent (beats_heart s) h apart e = same-Absent u _ h refl e
  handle-Absent (closes country s) h apart e = close-Absent country s h e
  handle-Absent (timer us) h apart e = sweep-Absent (size global h.world.redis) us h e
  handle-Absent (shuts_down now this_node us) h apart e =
      same-Absent u _ (drain db_up now us h) refl (drain-Absent now us h e)
  handle-Absent (occupancy_lost v) h apart e = same-Absent u _ h refl e

  -- A user without a snapshot in the queue has none after any run without a `queue:join` of the user.
  pub handle_all-Absent :
      (os : List Occurrence) (h : Hub)
      → any (is_join_of u) os ≡ false
      → Absent u h
      → Absent u (handle_all cfg db_up exists os h).1
  unfolding handle_all
  handle_all-Absent [] h none_joins e = e
  handle_all-Absent (o ∷ os) h none_joins e =
      handle_all-Absent os (handle cfg db_up exists o h).1 (ground (arith, none_joins))
        (handle-Absent o h (ground (arith, none_joins)) e)
