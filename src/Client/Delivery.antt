-- ===== src/Client/Delivery.antt =====
-- The frames of the server at one client, and that no client asks for the queue unless its user does.
use trip2world.Prelude.{
  ℕ, ◌≡◌, refl, Bool, true, false, Option, List, [], ◌∷◌, ◌++◌, arith, ◌==◌, if◌then◌else◌, any,
  Text,
}
use trip2world.Realtime.Hub.{Sender, Address, to_socket, to_user, Frame, Message}
use trip2world.Client.Types.{Conversation, Turn, Emitted, emits_queue_join}
use trip2world.Client.Frames.{
  receive, handle_match_found, on_connection_state, on_ice_candidate, negotiation_deadline,
  on_old_connection_state, on_old_ice_candidate, negotiated,
}
use trip2world.Client.Inputs.{Input, step, run, starts, frame}
use trip2world.Client.Actions.{
  skip, leave_queue, end_conversation, report_partner, block_partner, send_tip, respond_to_offer,
  send_message,
}

-- Whether a frame goes to the socket of a sender: to it, or to all of the user's.
abbrev pub comes_to : Sender → Address → Bool
comes_to s (to_socket k) = k == s.socket_id
comes_to s (to_user v) = v == s.sender_id

-- The frames in the order in which they are sent; `sdp` is what the browser answers to each.
unfoldable pub deliver : Sender → ℕ → Option Text → List Frame → Conversation → Turn
deliver s now sdp [] c = ([], c)
deliver s now sdp (f ∷ fs) c =
    let first = if comes_to s f.address then receive now sdp f.message c else ([], c) in
    let rest = deliver s now sdp fs first.1 in (first.0 ++ rest.0, rest.1)

abbrev pub asks_queue : Emitted → Bool
asks_queue (emits_queue_join camera microphone) = true
asks_queue _ = false

abbrev pub is_start : Input → Bool
is_start (starts now) = true
is_start _ = false

pub any-append :
    {A : Type 0} (p : A → Bool) (xs ys : List A)
    → any p xs ≡ false
    → any p ys ≡ false
    → any p (xs ++ ys) ≡ false
any-append p [] ys e f = f
any-append p (x ∷ xs) ys e f = ground (arith, any-append p xs ys, e, f)

skip_asks :
    (now : ℕ) (requeue : Bool) (c : Conversation) → any asks_queue (skip now requeue c).0 ≡ false
unfolding skip
skip_asks now requeue c = ground arith

receive_asks :
    (now : ℕ) (sdp : Option Text) (f : Message) (c : Conversation)
    → any asks_queue (receive now sdp f c).0 ≡ false
unfolding receive skip handle_match_found
receive_asks now sdp f c = ground arith

step_asks :
    (i : Input) (c : Conversation) → is_start i ≡ false → any asks_queue (step i c).0 ≡ false
unfolding step leave_queue end_conversation report_partner block_partner send_tip respond_to_offer
    send_message on_connection_state on_ice_candidate on_old_connection_state on_old_ice_candidate
    negotiated negotiation_deadline skip
step_asks (frame now sdp f) c e = receive_asks now sdp f c
step_asks i c e = ground (arith, e)

-- Without the user's start, nothing that comes to a client makes it ask for the queue.
pub run_asks :
    (inputs : List Input) (c : Conversation)
    → any is_start inputs ≡ false
    → any asks_queue (run inputs c).0 ≡ false
unfolding run
run_asks [] c e = refl
run_asks (i ∷ inputs) c e =
    any-append asks_queue (step i c).0 (run inputs (step i c).1).0
      (step_asks i c (ground (arith, e))) (run_asks inputs (step i c).1 (ground (arith, e)))
