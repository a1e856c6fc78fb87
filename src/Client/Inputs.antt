-- ===== src/Client/Inputs.antt =====
-- What happens to the hook, one input at a time: the user's actions, the frames of the server, the
-- socket, the browser and the timers. A timer's callback may come also when its reference holds another
-- timer or none, since a reference that is overwritten leaves the older timer running.
use trip2world.Prelude.{
  ℕ, ◌-◌, ◌/◌, Bool, true, false, Option, List, [], ◌∷◌, ◌++◌, if◌then◌else◌, Text,
}
use trip2world.Session.{SessionState, queued}
use trip2world.Prelude.Int.{ℤ}
use trip2world.Client.Types.{Conversation, Turn, Stream, emit, emits_heartbeat}
use trip2world.Client.Actions.{
  start_media, media_answered, join_queue, leave_queue, skip, end_conversation, toggle_camera,
  toggle_microphone, send_tip, respond_to_offer, send_message, report_partner, block_partner,
}
use trip2world.Client.Frames.{
  receive, connect_error, on_connect, on_disconnect, PeerState, on_connection_state,
  on_ice_candidate, reconnect_deadline, negotiation_deadline, Negotiation, on_old_connection_state,
  on_old_ice_candidate, negotiated,
}
use trip2world.Realtime.Hub.{Message}

pub data Input : Type 0 where
  asks_media leaves ends camera microphone reports blocks : Input
  media : Option Stream → Input
  starts : ℕ → Input
  presses_next : ℕ → Bool → Input
  tips_partner : ℤ → Option ℕ → Input
  answers_offer : ℕ → Bool → Input
  writes : Text → Input
  frame : ℕ → Option Text → Message → Input
  connect_fails connects disconnects : Input
  peer_becomes : PeerState → Input
  gathers : Text → Input
  old_peer_becomes : ℕ → PeerState → Input
  old_gathers : ℕ → Text → Input
  negotiates : ℕ → Negotiation → ℕ → Option Text → Input
  reconnect_over beat : Input
  negotiation_over second : ℕ → Input

abbrev tick_second : ℕ → Conversation → Conversation
tick_second now c = record c { waiting_seconds = (now - c.queue_started_at) / 1000 }

abbrev is_queued_state : SessionState → Bool
is_queued_state queued = true
is_queued_state _ = false

unfoldable pub step : Input → Conversation → Turn
step asks_media c = ([], start_media c)
step leaves c = leave_queue c
step ends c = end_conversation c
step camera c = ([], toggle_camera c)
step microphone c = ([], toggle_microphone c)
step reports c = report_partner c
step blocks c = block_partner c
step (media answer) c = ([], media_answered answer c)
step (starts now) c = join_queue now c
step (presses_next now requeue) c = skip now requeue c
step (tips_partner tokens seconds) c = send_tip tokens seconds c
step (answers_offer tip accepted) c = respond_to_offer tip accepted c
step (writes body) c = send_message body c
step (frame now sdp m) c = receive now sdp m c
step connect_fails c = ([], connect_error c)
step connects c = ([], on_connect c)
step disconnects c = ([], on_disconnect c)
step (peer_becomes st) c = on_connection_state st c
step (gathers candidate) c = on_ice_candidate candidate c
step (old_peer_becomes i st) c = on_old_connection_state i st c
step (old_gathers i candidate) c = on_old_ice_candidate i candidate c
step (negotiates now kind m sdp) c = negotiated now kind m sdp c
step reconnect_over c = ([], reconnect_deadline c)
step beat c = (emit emits_heartbeat c, c)
step (negotiation_over now) c = negotiation_deadline now c
step (second now) c = ([], if is_queued_state c.state then tick_second now c else c)

unfoldable pub run : List Input → Conversation → Turn
run [] c = ([], c)
run (i ∷ inputs) c =
    let first = step i c in let rest = run inputs first.1 in (first.0 ++ rest.0, rest.1)
