-- ===== src/Client/Late.antt =====
-- Frames that arrive late, of a call that the client has left or never entered; and calls that the client
-- leaves without telling the server.
use trip2world.Prelude.{
  ℕ, ◌≡◌, refl, ◌≢◌, ◌⊎◌, inl, inr, Bool, true, false, Option, none, some, [], ◌∷◌, arith, ◌==◌,
  Option-cases, any, Text, ==_refl,
}
use trip2world.Queue.Repository.{current_match}
use trip2world.Pairing.Prepare.{Settings, Tick}
use trip2world.Pairing.Occupancy.{occupied}
use trip2world.Realtime.Handlers.{queue_join, JoinInput, CandidateRow, join_checked, may_stay}
use trip2world.Session
use trip2world.Session.{queued, transition_to, can_transition, ready, can_skip, SessionState}
use trip2world.Pairing.Types.{MatchEndReason}
use trip2world.Realtime.Hub.{
  Event, partner_left, match_ended, signal, on_queue_join, allow, Sender, Hub, reply, failed,
  already_matched,
}
use trip2world.Client.Types.{
  Conversation, close_peer, Peer, Stream, generic, end_match_locally, clear_timers,
}
use trip2world.Client.Frames.{receive, on_connection_state, ice_failed}
use trip2world.Client.Delivery.{deliver, asks_queue}
use trip2world.Client.Actions.{join_queue}

-- A signal of another match than the client's is dropped; but an end of another match, told by the
-- partner that left or by the server, ends the client's own call: the connection is closed and the
-- match is forgotten, and the server is not told.
pub stale_end :
    (now k m : ℕ) (sdp : Option Text) (e : Event) (content : Text) (reason : MatchEndReason)
    (requeued : Bool) (c : Conversation)
    → c.match_ref ≡ some m
    → k ≢ m
    → let left = receive now sdp (partner_left k reason) c in
      let over = receive now sdp (match_ended k reason requeued) c in
      (receive now sdp (signal e k content) c ≡ ([], c))
      × (left.0 ≡ [])
      × (left.1.match_ref ≡ none)
      × (left.1.peer ≡ none)
      × (over.0 ≡ [])
      × (over.1.match_ref ≡ none)
      × (over.1.peer ≡ none)
unfolding receive close_peer
stale_end now k m sdp e content reason requeued c own other =
    (dropped (Option-cases c.peer), refl, refl, refl, refl, ground arith, ground arith)
  where
    dropped :
        (c.peer ≡ none) ⊎ ((p : Peer) × (c.peer ≡ some p))
        → receive now sdp (signal e k content) c ≡ ([], c)
    dropped (inl f) = rw f refl
    dropped (inr (p, f)) =
        let apart : (k == m) ≡ false = ground (arith, other) in rw (f, own, apart) refl

to_partner_left :
    (x : SessionState)
    → can_skip x ≡ true
    → transition_to x Session.partner_left ≡ Session.partner_left
unfolding can_skip transition_to
to_partner_left x able = ground (arith, able)

refused_join :
    (cfg : Settings) (t : Tick) (db_up : Bool) (exists : ℕ → Bool) (m : ℕ) (s : Sender)
    (d : JoinInput) (row : Option CandidateRow) (h : Hub)
    → occupied h.world s.sender_id ≡ some m
    → (allow s on_queue_join 60 60000 h).0 ≡ true
    → queue_join cfg t db_up exists may_stay s (some d) row h
      ≡ (reply s (failed already_matched) ∷ [], (allow s on_queue_join 60 60000 h).1)
unfolding queue_join join_checked allow current_match
refused_join cfg t db_up exists m s d row h held fine = rw (fine, held) refl

-- A start after the call, and its refusal.
restarted :
    (s : Sender) (now later : ℕ) (sdp : Option Text) (c : Conversation) (stream : Stream)
    → c.state ≡ Session.partner_left
    → c.has_socket ≡ true
    → c.local_stream ≡ some stream
    → let asked = join_queue now c in
      let shown = (deliver s later sdp (reply s (failed already_matched) ∷ []) asked.1).1 in
      (any asks_queue asked.0 ≡ true)
      × (shown.state ≡ queued)
      × (shown.error_shown ≡ some (record { key = generic; retry = true }))
unfolding join_queue deliver receive transition_to can_transition
restarted s now later sdp c stream e socket media =
    rw (socket, media, e, ==_refl s.socket_id) (refl, refl, refl)

-- A call that fails is left by the client alone, which tells nobody: the server keeps the user in the
-- match and refuses the user's next start, while the client goes on showing the search with an error.
-- Assumed: the server has the user in a match, the account is in good standing, and the bucket is not
-- full.
pub local_end_refused :
    (cfg : Settings) (t : Tick) (db_up : Bool) (exists : ℕ → Bool) (now later m : ℕ)
    (sdp : Option Text) (s : Sender) (d : JoinInput) (row : Option CandidateRow) (h : Hub)
    (c : Conversation) (p : Peer) (stream : Stream)
    → can_skip c.state ≡ true
    → c.peer ≡ some p
    → c.has_socket ≡ true
    → c.local_stream ≡ some stream
    → occupied h.world s.sender_id ≡ some m
    → (allow s on_queue_join 60 60000 h).0 ≡ true
    → let dead = on_connection_state ice_failed c in
      let asked = join_queue now dead.1 in
      let served = queue_join cfg t db_up exists may_stay s (some d) row h in
      let shown = (deliver s later sdp served.0 asked.1).1 in
      (dead.0 ≡ [])
      × (any asks_queue asked.0 ≡ true)
      × (served.1.world ≡ h.world)
      × (occupied served.1.world s.sender_id ≡ some m)
      × (shown.state ≡ queued)
      × (shown.error_shown ≡ some (record { key = generic; retry = true }))
unfolding on_connection_state end_match_locally close_peer clear_timers allow current_match
local_end_refused cfg t db_up exists now later m sdp s d row h c p stream able e socket media held
      fine =
    let dead : Conversation = (on_connection_state ice_failed c).1 in
    let (quiet, state, socket', media') = died in
    let refused = refused_join cfg t db_up exists m s d row h held fine in
    let (asks, shown, told) = restarted s now later sdp dead stream state socket' media' in
    (quiet, asks, rw refused refl, rw refused held, rw refused shown, rw refused told)
  where
    died :
        let r = on_connection_state ice_failed c in
        (r.0 ≡ [])
        × (r.1.state ≡ Session.partner_left)
        × (r.1.has_socket ≡ true)
        × (r.1.local_stream ≡ some stream)
    died = rw e (refl, to_partner_left c.state able, socket, media)
