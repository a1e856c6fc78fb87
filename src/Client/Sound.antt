-- ===== src/Client/Sound.antt =====
-- One turn of the hook: the match, its connection and the partner go together, and what is emitted about
-- a match is about one that the hook knows.
use trip2world.Prelude.{
  ℕ, zero, suc, ◌≡◌, ◌⊎◌, inl, inr, Bool, true, Option, none, some, List, [], ◌∷◌, map, arith, ◌==◌,
  Bool-cases, Option-cases, get_elem?, any, In, Text,
}
use trip2world.Prelude.Int.{ℤ, pos}
use trip2world.Realtime.Hub.{
  match_found, Message, Event, failed, partner_left, match_ended, queue_joined, queue_left,
  acknowledged, signal, chat, waiting_for, tip_arrived, tokens_balance, offer_resolved, restriction,
}
use trip2world.Client.Frames.{
  receive, handle_match_found, on_connection_state, on_ice_candidate, PeerState,
  negotiation_deadline, reconnect_deadline, connect_error, on_connect, on_disconnect,
  account_restricted, on_old_connection_state, negotiated, on_old_ice_candidate, Negotiation,
  established,
}
use trip2world.Client.Actions.{
  skip, start_media, media_answered, join_queue, leave_queue, end_conversation, send_tip,
  respond_to_offer, send_message, report_partner, block_partner, toggle_camera, toggle_microphone,
}
use trip2world.Client.Types.{
  Conversation, Turn, Stream, close_peer, Emitted, Peer, emits_skip, emits_end, emits_connected,
  emits_offer, emits_answer, emits_ice, emits_chat, emits_tip, emits_report, emits_block,
  end_match_locally, clear_timers,
}
use trip2world.Client.Inputs.{
  Input, step, frame, asks_media, leaves, ends, camera, microphone, reports, blocks, media, starts,
  presses_next, tips_partner, answers_offer, writes, connect_fails, connects, disconnects,
  peer_becomes, gathers, reconnect_over, beat, negotiation_over, second, old_peer_becomes,
  old_gathers, negotiates,
}

abbrev SameCall : Option ℕ → Option Peer → Option ℕ → Type 0
SameCall none none none = Unit
SameCall (some m) (some p) (some v) = p.active_match ≡ m
SameCall _ _ _ = ⊥

-- The client has no match, no connection and no partner, or it has them all, and the connection is for
-- that match.
unfoldable pub Together : Conversation → Type 0
Together c = SameCall c.match_ref c.peer c.partner

-- The match that something emitted is about.
abbrev pub about : Emitted → Option ℕ
about (emits_skip m requeue) = some m
about (emits_end m) = some m
about (emits_connected m) = some m
about (emits_offer m sdp) = some m
about (emits_answer m sdp) = some m
about (emits_ice m candidate) = some m
about (emits_chat m body) = some m
about (emits_tip m tokens seconds) = some m
about (emits_report m v also) = m
about (emits_block v m) = m
about _ = none

-- The match that a frame brings.
abbrev pub brings : Input → Option ℕ
brings (frame now sdp (match_found m partner is_initiator)) = some m
brings _ = none

-- The match is the hook's, or the one that an input has brought, or that of a connection that was
-- overwritten without being closed.
abbrev pub IsKnown : Conversation → Option ℕ → ℕ → Type 0
IsKnown c brought m =
    (c.match_ref ≡ some m) ⊎ (brought ≡ some m) ⊎ In m (map Peer.active_match c.old_peers)

-- After a turn the three still go together, and what it has emitted is about a match that was known.
abbrev Sound : Conversation → Option ℕ → Turn → Type 0
Sound c brought r =
    Together r.1 × ((e : Emitted) (m : ℕ) → In e r.0 → about e ≡ some m → IsKnown c brought m)

skip-Sound :
    (now : ℕ) (requeue : Bool) (c : Conversation) (b : Option ℕ)
    → Together c
    → Sound c b (skip now requeue c)
unfolding Together skip close_peer
skip-Sound now requeue c b t = (ground (arith, t), λ e m i a. ground (arith, i, a))

media-Sound :
    (o : Option Stream) (c : Conversation)
    → Together c
    → Together (start_media c) × Together (media_answered o c)
unfolding Together start_media media_answered
media-Sound o c t = ground (arith, t)

join_queue-Sound : (now : ℕ) (c : Conversation) → Together c → Sound c none (join_queue now c)
unfolding Together join_queue
join_queue-Sound now c t = (ground (arith, t), λ e m i a. ground (arith, i, a))

leave_queue-Sound : (c : Conversation) → Together c → Sound c none (leave_queue c)
unfolding Together leave_queue
leave_queue-Sound c t = (t, λ e m i a. ground (arith, i, a))

end_conversation-Sound : (c : Conversation) → Together c → Sound c none (end_conversation c)
unfolding Together end_conversation close_peer
end_conversation-Sound c t = (tt, λ e m i a. ground (arith, i, a))

partner-Sound :
    (c : Conversation)
    → Together c
    → Sound c none (report_partner c) × Sound c none (block_partner c)
unfolding Together report_partner block_partner close_peer
partner-Sound c t = (
  (ground (arith, t), λ e m i a. ground (arith, i, a)),
  (ground (arith, t), λ e m i a. ground (arith, i, a)),
)

talk-Sound :
    (tokens : ℤ) (seconds : Option ℕ) (tip : ℕ) (accepted : Bool) (body : Text) (c : Conversation)
    → Together c
    → Sound c none (send_tip tokens seconds c)
      × Sound c none (respond_to_offer tip accepted c)
      × Sound c none (send_message body c)
unfolding Together send_tip respond_to_offer send_message
talk-Sound tokens seconds tip accepted body c t = (
  (t, λ e m i a. ground (arith, i, a)),
  (t, λ e m i a. ground (arith, i, a)),
  (t, λ e m i a. ground (arith, i, a)),
)

found-Sound :
    (now : ℕ) (sdp : Option Text) (m v : ℕ) (first : Bool) (c : Conversation)
    → Together c
    → Sound c (some m) (handle_match_found now sdp m v first c)
unfolding Together handle_match_found skip close_peer
found-Sound now sdp m v first c t = (ground (arith, t), λ e k i a. ground (arith, i, a))

peer-Sound :
    (st : PeerState) (c : Conversation) → Together c → Sound c none (on_connection_state st c)
unfolding Together on_connection_state end_match_locally close_peer clear_timers
peer-Sound st c t = (ground (arith, t), λ e m i a. ground (arith, t, i, a))

old_match :
    (i m : ℕ) (peers : List Peer) (p : Peer)
    → get_elem? peers i ≡ some p
    → p.active_match ≡ m
    → In m (map Peer.active_match peers)
old_match i m [] p e f = absurd (ground (arith, e))
old_match zero m (q ∷ peers) p e f = inl (ground (arith, e, f))
old_match (suc i) m (q ∷ peers) p e f = inr (old_match i m peers p e f)

old_peer-Sound :
    (i : ℕ) (st : PeerState) (x : Text) (c : Conversation)
    → Together c
    → Sound c none (on_old_connection_state i st c) × Sound c none (on_old_ice_candidate i x c)
unfolding Together on_old_connection_state on_old_ice_candidate end_match_locally close_peer
    clear_timers
old_peer-Sound i st x c t = elim (Option-cases (get_elem? c.old_peers i)) [
  | inl out ↦
      rw (on_old_connection_state, on_old_ice_candidate, out)
        ((t, λ e m k a. absurd k), (t, λ e m k a. absurd k))
  | inr (p, found) ↦
      let known : (m : ℕ) → p.active_match ≡ m → IsKnown c none m =
        λ m same. inr (inr (old_match i m c.old_peers p found same)) in
      rw (on_old_connection_state, on_old_ice_candidate, found)
        (
          (ground (arith, t), λ e m k a. known m (ground (arith, k, a))),
          (t, λ e m k a. known m (ground (arith, k, a))),
        )
]

open_match :
    (m : ℕ) (peers : List Peer)
    → any (λ p. p.active_match == m) peers ≡ true
    → In m (map Peer.active_match peers)
open_match m [] e = absurd (ground (arith, e))
open_match m (p ∷ peers) e = elim (Bool-cases (p.active_match == m)) [
  | inl same ↦ inl (ground (arith, same))
  | inr other ↦ inr (open_match m peers (ground (arith, other, e)))
]

negotiated-Sound :
    (now : ℕ) (kind : Negotiation) (m : ℕ) (sdp : Option Text) (c : Conversation)
    → Together c
    → Sound c none (negotiated now kind m sdp c)
unfolding Together negotiated
negotiated-Sound now kind m none c t = skip-Sound now true c none t
negotiated-Sound now kind m (some sdp) c t =
    (ground (arith, t), λ e k i a. ground (arith, t, i, a, open_match m c.old_peers))

candidate-Sound : (x : Text) (c : Conversation) → Together c → Sound c none (on_ice_candidate x c)
unfolding Together on_ice_candidate
candidate-Sound x c t = (ground (arith, t), λ e m i a. ground (arith, t, i, a))

signal-Sound :
    (now : ℕ) (sdp : Option Text) (e : Event) (m : ℕ) (content : Text) (c : Conversation)
    → Together c
    → Sound c none (receive now sdp (signal e m content) c)
unfolding Together receive skip close_peer
signal-Sound now sdp e m content c t = (ground (arith, t), λ x k i a. ground (arith, t, i, a))

receive-Sound :
    (now : ℕ) (sdp : Option Text) (f : Message) (c : Conversation)
    → Together c
    → Sound c (brings (frame now sdp f)) (receive now sdp f c)
unfolding Together receive close_peer account_restricted
receive-Sound now sdp (match_found m v first) c t = found-Sound now sdp m v first c t
receive-Sound now sdp (signal e m content) c t = signal-Sound now sdp e m content c t
receive-Sound now sdp (restriction is_banned) c t = (tt, λ x k i a. absurd i)
receive-Sound now sdp (failed code) c t = (ground (arith, t), λ x k i a. absurd i)
receive-Sound now sdp (partner_left m reason) c t = (tt, λ x k i a. absurd i)
receive-Sound now sdp (match_ended m reason requeued) c t = (ground (arith, t), λ x k i a. absurd i)
receive-Sound now sdp queue_joined c t = (t, λ x k i a. absurd i)
receive-Sound now sdp queue_left c t = (t, λ x k i a. absurd i)
receive-Sound now sdp acknowledged c t = (t, λ x k i a. absurd i)
receive-Sound now sdp (chat m u body) c t = (t, λ x k i a. absurd i)
receive-Sound now sdp (waiting_for position waited stage searching) c t = (t, λ x k i a. absurd i)
receive-Sound now sdp (tip_arrived tip m u tokens seconds own) c t = (t, λ x k i a. absurd i)
receive-Sound now sdp (tokens_balance n) c t = (t, λ x k i a. absurd i)
receive-Sound now sdp (offer_resolved tip accepted seconds) c t = (t, λ x k i a. absurd i)

deadline-Sound :
    (now : ℕ) (c : Conversation)
    → Together c
    → Sound c none (negotiation_deadline now c) × Together (reconnect_deadline c)
unfolding Together negotiation_deadline reconnect_deadline end_match_locally skip close_peer
deadline-Sound now c t = ((ground (arith, t), λ x k i a. ground (arith, i, a)), ground (arith, t))

pub step-Sound : (i : Input) (c : Conversation) → Together c → Sound c (brings i) (step i c)
unfolding Together step toggle_camera toggle_microphone connect_error on_connect on_disconnect
    account_restricted close_peer
step-Sound asks_media c t = ((media-Sound none c t).0, λ x k i a. absurd i)
step-Sound leaves c t = leave_queue-Sound c t
step-Sound ends c t = end_conversation-Sound c t
step-Sound camera c t = (t, λ x k i a. absurd i)
step-Sound microphone c t = (t, λ x k i a. absurd i)
step-Sound reports c t = (partner-Sound c t).0
step-Sound blocks c t = (partner-Sound c t).1
step-Sound (media answer) c t = ((media-Sound answer c t).1, λ x k i a. absurd i)
step-Sound (starts now) c t = join_queue-Sound now c t
step-Sound (presses_next now requeue) c t = skip-Sound now requeue c none t
step-Sound (tips_partner tokens seconds) c t = (talk-Sound tokens seconds 0 true [] c t).0
step-Sound (answers_offer tip accepted) c t = (talk-Sound (pos 0) none tip accepted [] c t).1
step-Sound (writes body) c t = (talk-Sound (pos 0) none 0 true body c t).2
step-Sound (frame now sdp f) c t = receive-Sound now sdp f c t
step-Sound connect_fails c t = (ground (arith, t), λ x k i a. absurd i)
step-Sound connects c t = (t, λ x k i a. absurd i)
step-Sound disconnects c t = (t, λ x k i a. absurd i)
step-Sound (peer_becomes st) c t = peer-Sound st c t
step-Sound (gathers x) c t = candidate-Sound x c t
step-Sound (old_peer_becomes i st) c t = (old_peer-Sound i st [] c t).0
step-Sound (old_gathers i x) c t = (old_peer-Sound i established x c t).1
step-Sound (negotiates now kind m sdp) c t = negotiated-Sound now kind m sdp c t
step-Sound reconnect_over c t = ((deadline-Sound 0 c t).1, λ x k i a. absurd i)
step-Sound beat c t = (t, λ x k i a. ground (arith, i, a))
step-Sound (negotiation_over now) c t = (deadline-Sound now c t).0
step-Sound (second now) c t = (ground (arith, t), λ x k i a. absurd i)
