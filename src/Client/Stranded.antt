-- ===== src/Client/Stranded.antt =====
-- The hook and the server together: what the client shows after Next, after a refused Next and after a
-- call that has failed, and where the server has the user.
use trip2world.Prelude.{
  ℕ, ◌≡◌, refl, ap, ◌∙◌, ◌≢◌, Bool, true, false, Option, none, some, List, [], ◌∷◌, arith, ltb,
  ◌==◌, is_some, any, Text, ==_refl,
}
use trip2world.Session.Traces.{skip_lands}
use trip2world.Pairing.Prepare.{Settings}
use trip2world.Realtime.Events.{Occurrence, handle_all}
use trip2world.Client.Inputs.{Input, run}
use trip2world.Client.Frames.{receive}
use trip2world.Session
use trip2world.Session.{can_skip, queued, transition_to}
use trip2world.Pairing.Occupancy.{occupied}
use trip2world.Realtime.Absent.{Absent, is_join_of}
use trip2world.Realtime.Rooms.{Reaches, one_reply}
use trip2world.Queue.Store.{MatchRecord, Entry}
use trip2world.Realtime.Matches.{teardown_match, teardown_found, peer_of}
use trip2world.Realtime.Endings.{teardown_peer, cooldown_keeps}
use trip2world.Queue.Repository.{
  check_skip_cooldown, resolve_peer, get_match_participants, peer_in, is_queued, current_match,
}
use trip2world.Pairing.Types.{skipped}
use trip2world.Realtime.Handlers.{SkipInput, match_skip}
use trip2world.Realtime.Hub.{
  Sender, Hub, tell, reply, partner_left, match_ended, acknowledged, queue_joined, failed,
  skip_cooldown,
}
use trip2world.Client.Types.{Conversation, emits_skip, close_peer}
use trip2world.Client.Delivery.{deliver, asks_queue, is_start, run_asks}
use trip2world.Client.Actions.{skip, end_conversation}
use trip2world.Realtime.Unqueued.{handle_all-Absent, skip-Absent}

-- Next with `requeue`, by the user of a socket.
abbrev pub next : ℕ → SkipInput
next m = record { skip_match = m; requeue = true }

module _ (db_up : Bool) (ttl min_seconds : ℕ) (s : Sender) (m peer : ℕ) (h : Hub) where
  served_frames :
      (check_skip_cooldown ttl s.sender_id min_seconds h.world.redis).0 ≡ 0
      → resolve_peer m s.sender_id h.world.redis ≡ some peer
      → (match_skip db_up ttl min_seconds s (some (next m)) h).0
        ≡ tell peer (partner_left m skipped)
          ∷ reply s (match_ended m skipped true)
          ∷ reply s acknowledged
          ∷ reply s queue_joined
          ∷ []
  unfolding match_skip teardown_match teardown_found get_match_participants resolve_peer
  served_frames e f =
      let (rooms, _, _) = cooldown_keeps ttl s.sender_id min_seconds h.world.redis in
      let (p, found, g) = teardown_peer (h.world.redis.match_of m) s.sender_id peer f in
      let still = ap (λ ms. ms m) rooms ∙ found in rw (e, still, teardown_met p g, g) refl
    where
      teardown_met :
          (p : MatchRecord)
          → peer_of p (some s.sender_id) ≡ some peer
          → peer_in (some p) s.sender_id ≡ some peer
      teardown_met p g = ground (arith, g)

  -- A Next that comes too soon is answered to the sender alone, and nobody leaves a match.
  refused_skip :
      ltb 0 (check_skip_cooldown ttl s.sender_id min_seconds h.world.redis).0 ≡ true
      → ((match_skip db_up ttl min_seconds s (some (next m)) h).0
          ≡ reply s (failed skip_cooldown) ∷ [])
        × ((v : ℕ)
            → occupied (match_skip db_up ttl min_seconds s (some (next m)) h).1.world v
              ≡ occupied h.world v)
  unfolding match_skip current_match
  refused_skip soon =
      let (_, users, _) = cooldown_keeps ttl s.sender_id min_seconds h.world.redis in
      rw soon (refl, λ v. ap (λ x. x v) users)

pressed_next :
    (now m : ℕ) (c : Conversation)
    → can_skip c.state ≡ true
    → c.match_ref ≡ some m
    → c.has_socket ≡ true
    → let r = skip now true c in
      (r.0 ≡ emits_skip m true ∷ [])
      × (r.1.state ≡ queued)
      × (r.1.match_ref ≡ none)
      × (r.1.error_shown ≡ c.error_shown)
unfolding skip close_peer Session.skip
pressed_next now m c able e socket =
    let (_, lands, _) = skip_lands c.state true able in rw (e, socket) (refl, lands, refl, refl)

confirmed :
    (s : Sender) (later m peer : ℕ) (sdp : Option Text) (c : Conversation)
    → peer ≢ s.sender_id
    → c.state ≡ queued
    → let r =
        deliver s later sdp
          (tell peer (partner_left m skipped)
            ∷ reply s (match_ended m skipped true)
            ∷ reply s acknowledged
            ∷ reply s queue_joined
            ∷ [])
          c in
      (r.1.state ≡ queued) × (r.1.queue_confirmed ≡ true)
unfolding deliver receive close_peer transition_to
confirmed s later m peer sdp c two e =
    let apart : (peer == s.sender_id) ≡ false = ground (arith, two) in
    rw (apart, ==_refl s.socket_id, e) (refl, refl)

-- Next from a call that the server knows, if it is not too soon: the client ends up searching, with its
-- place in the queue confirmed by the server, and is not in the queue; it is not in it after any run of
-- the server either, until the user joins, and until the user starts anew no input makes the client ask.
-- Assumed: the user has no place in the queue when Next comes, and the peer is another user.
pub next_strands :
    (cfg : Settings) (db_up : Bool) (exists : ℕ → Bool) (ttl min_seconds now later m peer : ℕ)
    (sdp : Option Text) (s : Sender) (h : Hub) (c : Conversation) (os : List Occurrence)
    (inputs : List Input)
    → can_skip c.state ≡ true
    → c.match_ref ≡ some m
    → c.has_socket ≡ true
    → (check_skip_cooldown ttl s.sender_id min_seconds h.world.redis).0 ≡ 0
    → resolve_peer m s.sender_id h.world.redis ≡ some peer
    → peer ≢ s.sender_id
    → is_queued s.sender_id h.world.redis ≡ false
    → any (is_join_of s.sender_id) os ≡ false
    → any is_start inputs ≡ false
    → let pressed = skip now true c in
      let served = match_skip db_up ttl min_seconds s (some (next m)) h in
      let shown = (deliver s later sdp served.0 pressed.1).1 in
      (pressed.0 ≡ emits_skip m true ∷ [])
      × (shown.state ≡ queued)
      × (shown.queue_confirmed ≡ true)
      × (is_queued s.sender_id (handle_all cfg db_up exists os served.1).1.world.redis ≡ false)
      × (any asks_queue (run inputs shown).0 ≡ false)
unfolding Absent is_queued
next_strands cfg db_up exists ttl min_seconds now later m peer sdp s h c os inputs able e socket
      fine met two out others idle =
    let (sent, state, _, _) = pressed_next now m c able e socket in
    let frames = served_frames db_up ttl min_seconds s m peer h fine met in
    let pressed : Conversation = (skip now true c).1 in
    let (shown, sure) = confirmed s later m peer sdp pressed two state in
    let away : Absent s.sender_id h = absent (h.world.redis.entry s.sender_id) out in
    let still =
      handle_all-Absent s.sender_id cfg db_up exists os
        (match_skip db_up ttl min_seconds s (some (next m)) h).1 others
        (skip-Absent s.sender_id cfg db_up exists ttl min_seconds s (some (next m)) h away) in
    (sent, rw frames shown, rw frames sure, ap is_some still, run_asks inputs _ idle)
  where
    absent : (o : Option Entry) → is_some o ≡ false → o ≡ none
    absent o f = ground (arith, f)

refusal_ignored :
    (s : Sender) (later : ℕ) (sdp : Option Text) (c : Conversation)
    → (deliver s later sdp (reply s (failed skip_cooldown) ∷ []) c).1 ≡ c
unfolding deliver receive
refusal_ignored s later sdp c = rw (==_refl s.socket_id) refl

unaware :
    (now : ℕ) (c : Conversation)
    → c.match_ref ≡ none
    → ((skip now true c).0 ≡ []) × ((end_conversation c).0 ≡ [])
unfolding skip end_conversation
unaware now c e = rw e (refl, refl)

-- Next that comes too soon: the client shows a search and no error, while both users stay in the match
-- at the server, and nobody else hears of it; from then on the client no longer knows the match, so that
-- neither Next nor End sends anything.
pub skip_refused :
    (db_up : Bool) (ttl min_seconds now later m : ℕ) (sdp : Option Text) (s : Sender) (h : Hub)
    (c : Conversation)
    → can_skip c.state ≡ true
    → c.match_ref ≡ some m
    → c.has_socket ≡ true
    → ltb 0 (check_skip_cooldown ttl s.sender_id min_seconds h.world.redis).0 ≡ true
    → let pressed = skip now true c in
      let served = match_skip db_up ttl min_seconds s (some (next m)) h in
      let shown = (deliver s later sdp served.0 pressed.1).1 in
      (pressed.0 ≡ emits_skip m true ∷ [])
      × ((v : ℕ) → occupied served.1.world v ≡ occupied h.world v)
      × ((v : ℕ) → ¬ (Reaches v served.0))
      × (shown.state ≡ queued)
      × (shown.error_shown ≡ c.error_shown)
      × ((skip later true shown).0 ≡ [])
      × ((end_conversation shown).0 ≡ [])
skip_refused db_up ttl min_seconds now later m sdp s h c able e socket soon =
    let (sent, state, gone, quiet) = pressed_next now m c able e socket in
    let (frames, users) = refused_skip db_up ttl min_seconds s m 0 h soon in
    let pressed : Conversation = (skip now true c).1 in
    let same : (deliver s later sdp (reply s (failed skip_cooldown) ∷ []) pressed).1 ≡ pressed =
      refusal_ignored s later sdp pressed in
    (
      sent,
      users,
      λ v. rw frames (one_reply s (failed skip_cooldown) v),
      rw (frames, same) state,
      rw (frames, same) quiet,
      rw (frames, same) (unaware later pressed gone).0,
      rw (frames, same) (unaware later pressed gone).1,
    )
