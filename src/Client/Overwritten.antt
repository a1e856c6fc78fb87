-- ===== src/Client/Overwritten.antt =====
-- Connections of the hook (apps/web/src/hooks/use-conversation.ts) that are overwritten without being
-- closed.
use trip2world.Prelude.{
  ℕ, ◌≡◌, ap, ◌∙◌, inl, inr, Bool, true, false, ◌&&◌, ◌||◌, Option, List, [], ◌∷◌, arith,
  Bool-cases, is_some, Text,
}
use trip2world.Realtime.Hub.{Message, match_found}
use trip2world.Session.{can_transition}
use trip2world.Client.Actions.{
  start_media, media_answered, join_queue, leave_queue, end_conversation, toggle_camera,
  toggle_microphone, send_tip, respond_to_offer, send_message, report_partner, block_partner, skip,
}
use trip2world.Client.Frames.{
  receive, handle_match_found, account_restricted, connect_error, on_connect, on_disconnect,
  on_connection_state, on_ice_candidate, on_old_connection_state, on_old_ice_candidate, negotiated,
  reconnect_deadline, negotiation_deadline,
}
use trip2world.Client.Types.{Peer, Conversation, close_peer, end_match_locally, clear_timers}
use trip2world.Client.Inputs.{Input, step, run, frame}
use trip2world.Session
use trip2world.Session.{can_transition}

-- Whether an input makes `peerRef` hold another connection while it holds one.
abbrev pub overwriting : Input → Conversation → Bool
overwriting (frame now sdp (match_found m partner is_initiator)) c =
    is_some c.peer && can_transition c.state Session.match_found
overwriting _ c = false

unfoldable pub overwrites : List Input → Conversation → Bool
overwrites [] c = false
overwrites (i ∷ inputs) c = overwriting i c || overwrites inputs (step i c).1

abbrev pub is_empty : List Peer → Bool
is_empty [] = true
is_empty (p ∷ peers) = false

receive_old :
    (now : ℕ) (sdp : Option Text) (f : Message) (c : Conversation)
    → overwriting (frame now sdp f) c ≡ false
    → (receive now sdp f c).1.old_peers ≡ c.old_peers
unfolding receive handle_match_found account_restricted close_peer can_transition
receive_old now sdp f c e = ground (arith, e)

step_old :
    (i : Input) (c : Conversation) → overwriting i c ≡ false → (step i c).1.old_peers ≡ c.old_peers
unfolding step start_media media_answered join_queue leave_queue end_conversation toggle_camera
    toggle_microphone send_tip respond_to_offer send_message report_partner block_partner skip
    account_restricted connect_error on_connect on_disconnect on_connection_state on_ice_candidate
    on_old_connection_state on_old_ice_candidate negotiated reconnect_deadline negotiation_deadline
    end_match_locally clear_timers close_peer
step_old (frame now sdp f) c e = receive_old now sdp f c e
step_old i c e = ground (arith, e)

pub run_old :
    (inputs : List Input) (c : Conversation)
    → is_empty c.old_peers ≡ true
    → (is_empty (run inputs c).1.old_peers || overwrites inputs c) ≡ true
unfolding run overwrites
run_old [] c e = ground (arith, e)
run_old (i ∷ inputs) c e = elim (Bool-cases (overwriting i c)) [
  | inl over ↦ ground (arith, over)
  | inr free ↦
      let same : is_empty (step i c).1.old_peers ≡ true = ap is_empty (step_old i c free) ∙ e in
      ground (arith, free, run_old inputs (step i c).1 same)
]
