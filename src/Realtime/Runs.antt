-- ===== src/Realtime/Runs.antt =====
-- Every run of the server keeps each occupied user in a room, so that the user can end the match.
use trip2world.Prelude.{
  ℕ, ◌≡◌, refl, ap, ◌∙◌, inl, inr, Bool, true, false, not, ◌&&◌, Option, none, some, List, [], ◌∷◌,
  arith, ◌==◌, if◌then◌else◌, Bool-cases, is_some, In, includes, Text,
}
use trip2world.Pairing.Occupancy.{occupied}
use trip2world.Matching.Shards.{global}
use trip2world.Realtime.Lifecycle.{
  disconnection, drain, wait_hint, sweep_user, sweep, connection, end_current, drain_current,
  after_sweep, presence_heartbeat, tick, shutdown,
}
use trip2world.Pairing.Prepare.{Settings, Tick}
use trip2world.Queue.Store.{Entry, json, corrupt, MatchRecord}
use trip2world.Realtime.Matches.{attempt_match}
use trip2world.Queue.Repository.{
  resolve_peer, get_entry, read_entry, current_match, leave, is_queued, size, peer_in,
  get_match_participants,
}
use trip2world.Realtime.Hub.{Sender, Hub, Answer, on_chat, tell, partner_left}
use trip2world.Realtime.Presence.{disconnect}
use trip2world.Pairing.Types.{ended, disconnected, server_shutdown}
use trip2world.Realtime.Handlers.{match_end, queue_leave}
use trip2world.Realtime.Housed.{Housed, same-Housed, teardown-Housed, free_user-Housed, Unused}
use trip2world.Realtime.Attempts.{attempt-Housed}
use trip2world.Realtime.Events.{
  Occurrence, handle, handle_all, DrawsUnused, AllUnused, SweepsUnused, joins, leaves, skips,
  ends_match, connects_match, signals, chats, blocks_user, reports_user, opens, beats_heart, closes,
  timer, shuts_down, occupancy_lost,
}
use trip2world.Realtime.Kept.{
  skip-Housed, end-Housed, connected-Housed, frames-Housed, join-Housed, block-Housed,
  report-Housed,
}
use trip2world.Realtime.Endings.{Over, match_end-Over}

leave-Housed :
    (country : Option Text) (s : Sender) (h : Hub) → Housed h → Housed (queue_leave country s h).1
unfolding queue_leave leave
leave-Housed country s h inv = same-Housed _ h (refl, refl) inv

close-Housed :
    (db_up : Bool) (country : Option Text) (s : Sender) (h : Hub)
    → Housed h
    → Housed (disconnection db_up country s h).1
unfolding disconnection leave
close-Housed db_up country s h inv =
    elim (Bool-cases (disconnect s.sender_id s.socket_id h.presence).0) [
      | inl last ↦
          rw last
            (same-Housed _ _ (refl, refl) (by_match (current_match s.sender_id h.world.redis)))
      | inr more ↦ rw more left-Housed
    ]
  where
    left : Hub
    left = record h { presence = (disconnect s.sender_id s.socket_id h.presence).1 }

    left-Housed : Housed left
    left-Housed = same-Housed left h (refl, refl) inv

    by_match : (o : Option ℕ) → Housed (end_current db_up s.at_time o s.sender_id left).1
    by_match none = left-Housed
    by_match (some m) =
        teardown-Housed db_up s.at_time m (some s.sender_id) disconnected left left-Housed

drain-Housed :
    (db_up : Bool) (now : ℕ) (us : List ℕ) (h : Hub) → Housed h → Housed (drain db_up now us h)
unfolding drain leave
drain-Housed db_up now [] h inv = inv
drain-Housed db_up now (u ∷ us) h inv =
    drain-Housed db_up now us _
      (same-Housed _ _ (refl, refl) (by_match (current_match u h.world.redis)))
  where
    by_match : (o : Option ℕ) → Housed (drain_current db_up now o h)
    by_match none = inv
    by_match (some m) = teardown-Housed db_up now m none server_shutdown h inv

module _ (cfg : Settings) (db_up : Bool) (exists : ℕ → Bool) where
  hint-Housed :
      (now searching u : ℕ) (h : Hub)
      → Housed h
      → Housed (wait_hint cfg now searching u (get_entry u h.world.redis) h).1
  unfolding get_entry read_entry
  hint-Housed now searching u h inv = by_entry (h.world.redis.entry u)
    where
      by_entry :
          (o : Option Entry)
          → Housed (wait_hint cfg now searching u (read_entry o u h.world.redis) h).1
      by_entry none = inv
      by_entry (some corrupt) = same-Housed _ h (refl, refl) inv
      by_entry (some (json c)) = same-Housed _ h (refl, refl) inv

  turn-Housed :
      (t : Tick) (searching u : ℕ) (h : Hub)
      → Unused t h
      → Housed h
      → Housed (sweep_user cfg t db_up exists searching u h).1
  unfolding sweep_user
  turn-Housed t searching u h unused inv =
      by_test (is_queued u h.world.redis && not (is_some (current_match u h.world.redis)))
    where
      after :
          (r : Bool × Answer) → Housed r.1.1 → Housed (after_sweep cfg t.tick_now searching u r).1
      after (true, r) i = i
      after (false, r) i = hint-Housed t.tick_now searching u r.1 i

      by_test :
          (b : Bool)
          → Housed
              (if b
                then after_sweep cfg t.tick_now searching u (attempt_match cfg t db_up exists u h)
                else ([], h)).1
      by_test true =
          after (attempt_match cfg t db_up exists u h)
            (attempt-Housed cfg t db_up exists u h unused inv)
      by_test false = inv

  sweep-Housed :
      (searching : ℕ) (us : List (ℕ × Tick)) (h : Hub)
      → SweepsUnused cfg db_up exists searching us h
      → Housed h
      → Housed (sweep cfg db_up exists searching us h).1
  unfolding sweep SweepsUnused
  sweep-Housed searching [] h draws inv = inv
  sweep-Housed searching ((u, t) ∷ us) h (unused, draws) inv =
      sweep-Housed searching us (sweep_user cfg t db_up exists searching u h).1 draws
        (turn-Housed t searching u h unused inv)

  handle-Housed :
      (o : Occurrence) (h : Hub)
      → DrawsUnused cfg db_up exists o h
      → Housed h
      → Housed (handle cfg db_up exists o h).1
  unfolding handle connection presence_heartbeat tick shutdown
  handle-Housed (joins t standing s payload row) h unused inv =
      join-Housed cfg t db_up exists s standing payload row h unused inv
  handle-Housed (leaves country s) h draws inv = leave-Housed country s h inv
  handle-Housed (skips ttl min_seconds s payload) h draws inv =
      skip-Housed db_up ttl min_seconds s payload h inv
  handle-Housed (ends_match s m) h draws inv = end-Housed db_up s m h inv
  handle-Housed (connects_match s m) h draws inv = connected-Housed s m h inv
  handle-Housed (signals e s payload) h draws inv = (frames-Housed e s payload h inv).0
  handle-Housed (chats s payload) h draws inv = (frames-Housed on_chat s payload h inv).1
  handle-Housed (blocks_user s payload) h draws inv = block-Housed db_up s payload h inv
  handle-Housed (reports_user s payload) h draws inv = report-Housed db_up s payload h inv
  handle-Housed (opens this_node s) h draws inv = same-Housed _ h (refl, refl) inv
  handle-Housed (beats_heart s) h draws inv = same-Housed _ h (refl, refl) inv
  handle-Housed (closes country s) h draws inv = close-Housed db_up country s h inv
  handle-Housed (timer us) h draws inv = sweep-Housed (size global h.world.redis) us h draws inv
  handle-Housed (shuts_down now this_node us) h draws inv =
      same-Housed _ (drain db_up now us h) (refl, refl) (drain-Housed db_up now us h inv)
  handle-Housed (occupancy_lost u) h draws inv = free_user-Housed u h inv

  -- Through any run of socket events, timers, shutdowns and losses of occupancy, whoever is occupied by a
  -- match is one of the two users of the room that the match has.
  -- Assumed: so it is at the start, and a match id that is drawn is that of no room at that time.
  pub handle_all-Housed :
      (os : List Occurrence) (h : Hub)
      → AllUnused cfg db_up exists os h
      → Housed h
      → Housed (handle_all cfg db_up exists os h).1
  unfolding handle_all AllUnused
  handle_all-Housed [] h draws inv = inv
  handle_all-Housed (o ∷ os) h (unused, draws) inv =
      handle_all-Housed os (handle cfg db_up exists o h).1 draws (handle-Housed o h unused inv)

  peer_of_room :
      (p : MatchRecord) (u : ℕ)
      → includes (p.user_a ∷ p.user_b ∷ []) u ≡ true
      → (v : ℕ) × (peer_in (some p) u ≡ some v)
  unfolding peer_in
  peer_of_room p u i = elim (Bool-cases (p.user_a == u)) [
    | inl first ↦ (p.user_b, rw first refl)
    | inr other ↦ (p.user_a, ground (arith, i, other))
  ]

  -- After any such run that starts with nobody in a match, whoever is occupied by a match has a peer in
  -- it and can end it: the end goes through, frees both users of the room, and tells the peer.
  -- Assumed: a match id that is drawn is that of no room at that time.
  pub handle_all-Over :
      (os : List Occurrence) (h : Hub) (s : Sender) (m : ℕ)
      → ((u : ℕ) → occupied h.world u ≡ none)
      → AllUnused cfg db_up exists os h
      → occupied (handle_all cfg db_up exists os h).1.world s.sender_id ≡ some m
      → let g = (handle_all cfg db_up exists os h).1 in
        (peer : ℕ) × (resolve_peer m s.sender_id g.world.redis ≡ some peer)
        × ((p : MatchRecord) × (g.world.redis.match_of m ≡ some p)
            × Over m p (match_end db_up s (some m) g).1.world
            × In (tell peer (partner_left m ended)) (match_end db_up s (some m) g).0)
  unfolding Housed resolve_peer get_match_participants
  handle_all-Over os h s m idle unused e =
      let g : Hub = (handle_all cfg db_up exists os h).1 in
      let (p, f, i) =
        handle_all-Housed os h unused (λ u k held. absurd (ground (arith, idle u, held)))
          s.sender_id m e in
      let (peer, met) = peer_of_room p s.sender_id i in
      let found : resolve_peer m s.sender_id g.world.redis ≡ some peer =
        ap (λ o. peer_in o s.sender_id) f ∙ met in
      (peer, found, match_end-Over db_up s m peer g found)
