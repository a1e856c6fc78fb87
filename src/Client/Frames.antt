-- ===== src/Client/Frames.antt =====
-- The socket handlers of the hook, those of its peer connections, and its timers. Where a handler awaits
-- the browser's WebRTC calls, `sdp` is the description that they make if nothing comes in between; with
-- none, the handler is still waiting, and goes on in `negotiated`, with success or failure, after
-- whatever has come in between.
use trip2world.Prelude.{
  ℕ, suc, Bool, true, false, not, ◌&&◌, ◌||◌, Option, none, some, List, [], ◌∷◌, ◌++◌, leb, ◌==◌,
  if◌then◌else◌, is_some, get_elem?, any, Text,
}
use trip2world.Realtime.Hub.{
  Message, Event, RealtimeErrorCode, failed, rate_limited, skip_cooldown, match_found, partner_left,
  match_ended, queue_joined, queue_left, acknowledged, signal, chat, waiting_for, tip_arrived,
  tokens_balance, offer_resolved, on_offer, on_answer, on_ice, restriction,
}
use trip2world.Client.Types.{
  Conversation, Turn, Tip, Peer, emit, move, clear_timers, close_peer, end_match_locally,
  emits_offer, emits_answer, emits_connected, no_connection, generic, banned, suspended, emits_ice,
}
use trip2world.Client.Actions.{skip, settle_offer}
use trip2world.Session.{
  SessionState, can_transition, ready, queued, signaling, connecting, connected, reconnecting,
  error,
}
use trip2world.Session

unfoldable pub connect_error : Conversation → Conversation
connect_error c =
    let tried = record c {
      is_connected = false;
      queue_confirmed = false;
      connect_attempts = suc c.connect_attempts;
    } in
    if leb 5 (suc c.connect_attempts)
    then move error
        (record tried { error_shown = some (record { key = no_connection; retry = true }) })
    else tried

unfoldable pub on_connect : Conversation → Conversation
on_connect c = record c { connect_attempts = 0; is_connected = true; error_shown = none }

unfoldable pub on_disconnect : Conversation → Conversation
on_disconnect c = record c { is_connected = false; queue_confirmed = false }

abbrev new_peer : ℕ → Peer
new_peer m = record { active_match = m; is_established = false; has_remote_description = false }

-- `peerRef.current = peer`, which does not close the connection that it held.
abbrev overwritten : Option Peer → List Peer → List Peer
overwritten none peers = peers
overwritten (some p) peers = p ∷ peers

-- `createPeer` and what follows it, up to the offer.
abbrev pub enter_match : ℕ → ℕ → Conversation → Conversation
enter_match m partner c =
    let found = record (move Session.match_found c) {
      match_ref = some m;
      partner = some partner;
      messages = [];
      peer = some (new_peer m);
      old_peers = overwritten c.peer c.old_peers;
    } in
    record (move signaling found) { negotiation_timer = true }

abbrev offer_made : ℕ → Option Text → Conversation → Turn
offer_made m none c = ([], c)
offer_made m (some sdp) c = (emit (emits_offer m sdp) c, move connecting c)

unfoldable pub handle_match_found : ℕ → Option Text → ℕ → ℕ → Bool → Conversation → Turn
handle_match_found now sdp m partner is_initiator c =
    if not (can_transition c.state Session.match_found)
    then ([], c)
    else (if is_initiator
        then offer_made m sdp (enter_match m partner c)
        else ([], enter_match m partner c))

-- `!peer || payload.matchId !== matchIdRef.current`
abbrev of_current : ℕ → Option ℕ → Bool
of_current m none = false
of_current m (some n) = m == n

-- The description is set and the candidates that waited for it are added.
abbrev describe : Peer → Conversation → Conversation
describe p c = record c {
  peer = some (record p { has_remote_description = true });
  pending_candidates = [];
}

abbrev answered : ℕ → Option Text → Peer → Conversation → Turn
answered m none p c = ([], c)
answered m (some sdp) p c = (emit (emits_answer m sdp) c, move connecting (describe p c))

abbrev accepted : Option Text → Peer → Conversation → Turn
accepted none p c = ([], c)
accepted (some sdp) p c = ([], describe p c)

abbrev candidate_came : Text → Peer → Conversation → Turn
candidate_came [] p c = ([], c)
candidate_came content p c =
    if p.has_remote_description
    then ([], c)
    else ([], record c { pending_candidates = c.pending_candidates ++ content ∷ [] })

abbrev signaled : Option Text → Event → ℕ → Text → Peer → Conversation → Turn
signaled sdp on_offer m content p c = answered m sdp p c
signaled sdp on_answer m content p c = accepted sdp p c
signaled sdp on_ice m content p c = candidate_came content p c
signaled sdp _ m content p c = ([], c)

abbrev with_own_peer : Option Peer → ℕ → Conversation → (Peer → Turn) → Turn
with_own_peer none m c body = ([], c)
with_own_peer (some p) m c body = if of_current m c.match_ref then body p else ([], c)

-- Only the recipient is asked, and only when time was offered.
abbrev offered : Tip → Option Tip → Option Tip
offered tip before = if not tip.is_own && is_some tip.offered_seconds then some tip else before

unfoldable pub account_restricted : Bool → Conversation → Conversation
account_restricted is_banned c = move error (record (close_peer c) {
  error_shown = some (record { key = if is_banned then banned else suspended; retry = false });
})

abbrev error_frame : RealtimeErrorCode → Conversation → Conversation
error_frame rate_limited c = c
error_frame skip_cooldown c = c
error_frame _ c = record c { error_shown = some (record { key = generic; retry = true }) }

unfoldable pub receive : ℕ → Option Text → Message → Conversation → Turn
receive now sdp (restriction is_banned) c = ([], account_restricted is_banned c)
receive now sdp (failed code) c = ([], error_frame code c)
receive now sdp (match_found m partner is_initiator) c =
    handle_match_found now sdp m partner is_initiator c
receive now sdp (partner_left m reason) c = ([], move Session.partner_left (close_peer c))
receive now sdp (match_ended m reason requeued) c = (
  [],
  if requeued
      then move queued (record (close_peer c) { queue_started_at = now; waiting_seconds = 0 })
      else move ready (close_peer c),
)
receive now sdp queue_joined c = ([], record c { queue_confirmed = true })
receive now sdp queue_left c = ([], record c { queue_confirmed = false; searching_now = none })
receive now sdp acknowledged c = ([], c)
receive now sdp (signal e m content) c =
    with_own_peer c.peer m c (λ p. signaled sdp e m content p c)
receive now sdp (chat m u body) c = (
  [],
  record c {
    messages = c.messages ++ record { chat_match = m; chat_sender = u; chat_body = body } ∷ [];
  },
)
receive now sdp (waiting_for position waited stage searching) c =
    ([], record c { queue_confirmed = true; searching_now = some searching })
receive now sdp (tip_arrived tip m u tokens seconds own) c =
    let arrived : Tip = record {
      tip_id = tip;
      tip_call = m;
      tip_from = u;
      tip_amount = tokens;
      offered_seconds = seconds;
      is_own = own;
    } in
    (
      [],
      record c { tips = c.tips ++ arrived ∷ []; pending_offer = offered arrived c.pending_offer },
    )
receive now sdp (tokens_balance n) c = ([], record c { token_balance = some n })
receive now sdp (offer_resolved tip accepted seconds) c =
    ([], record c { pending_offer = settle_offer tip c.pending_offer })

-- The states of an RTCPeerConnection that the hook acts on.
pub data PeerState : Type 0 where
  established interrupted ice_failed : PeerState

-- The handler of a connection for match `m`, whether or not `peerRef` still holds the connection.
abbrev peer_at : PeerState → ℕ → Conversation → Turn
peer_at established m c = (emit (emits_connected m) c, move connected (clear_timers c))
peer_at interrupted m c =
    if not (can_transition c.state reconnecting)
    then ([], c)
    else ([], record (move reconnecting c) { reconnect_timer = true })
peer_at ice_failed m c = ([], end_match_locally c)

-- `peer.connectionState`
abbrev is_up : PeerState → Bool
is_up established = true
is_up _ = false

-- `onconnectionstatechange`, of the connection that `peerRef` holds; a closed one has no handlers.
unfoldable pub on_connection_state : PeerState → Conversation → Turn
on_connection_state st c = elim (c.peer) [
  | none ↦ ([], c)
  | some p ↦
      peer_at st p.active_match (record c { peer = some (record p { is_established = is_up st }) })
]

-- `onicecandidate`, of the same.
unfoldable pub on_ice_candidate : Text → Conversation → Turn
on_ice_candidate candidate c = elim (c.peer) [
  | none ↦ ([], c)
  | some p ↦ (emit (emits_ice p.active_match candidate) c, c)
]

-- `onconnectionstatechange` and `onicecandidate` of a connection that was overwritten.
unfoldable pub on_old_connection_state : ℕ → PeerState → Conversation → Turn
on_old_connection_state i st c = elim (get_elem? c.old_peers i) [
  | none ↦ ([], c)
  | some p ↦ peer_at st p.active_match c
]

unfoldable pub on_old_ice_candidate : ℕ → Text → Conversation → Turn
on_old_ice_candidate i candidate c = elim (get_elem? c.old_peers i) [
  | none ↦ ([], c)
  | some p ↦ (emit (emits_ice p.active_match candidate) c, c)
]

-- What a handler awaits: the offer of match:found, the answer to webrtc:offer, or that the answer of
-- webrtc:answer is set.
pub data Negotiation : Type 0 where
  makes_offer makes_answer sets_answer : Negotiation

abbrev is_of : ℕ → Option Peer → Bool
is_of m none = false
is_of m (some p) = p.active_match == m

abbrev pub has_open : ℕ → Conversation → Bool
has_open m c = is_of m c.peer || any (λ p. p.active_match == m) c.old_peers

-- The candidates that wait, of whatever match, are given to the connection for `m`.
abbrev describe_of : ℕ → Conversation → Conversation
describe_of m c =
    if is_of m c.peer
    then elim (c.peer) [ none ↦ c | some p ↦ describe p c ]
    else record c { pending_candidates = [] }

abbrev negotiated_as : Negotiation → ℕ → Text → Conversation → Turn
negotiated_as makes_offer m sdp c = (emit (emits_offer m sdp) c, move connecting c)
negotiated_as makes_answer m sdp c =
    (emit (emits_answer m sdp) c, move connecting (describe_of m c))
negotiated_as sets_answer m sdp c = ([], describe_of m c)

-- What follows the awaits of a handler for match `m`: the calls of a connection that has been closed do
-- not succeed, and a failure skips whatever match is the hook's by then.
unfoldable pub negotiated : ℕ → Negotiation → ℕ → Option Text → Conversation → Turn
negotiated now kind m none c = skip now true c
negotiated now kind m (some sdp) c = if has_open m c then negotiated_as kind m sdp c else ([], c)

abbrev peer_established : Option Peer → Bool
peer_established none = false
peer_established (some p) = p.is_established

unfoldable pub reconnect_deadline : Conversation → Conversation
reconnect_deadline c = if not (peer_established c.peer) then end_match_locally c else c

abbrev is_connected_state : SessionState → Bool
is_connected_state connected = true
is_connected_state _ = false

unfoldable pub negotiation_deadline : ℕ → Conversation → Turn
negotiation_deadline now c = if not (is_connected_state c.state) then skip now true c else ([], c)
