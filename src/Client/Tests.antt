-- ===== src/Client/Tests.antt =====
-- Tests of the hook at concrete inputs, some with the server.
use trip2world.Prelude.{
  ℕ, ◌+◌, ◌≡◌, refl, true, false, ◌||◌, none, some, List, [], ◌∷◌, arith, ◌==◌, if◌then◌else◌, any,
  In, codes,
}
use trip2world.Client.Overwritten.{is_empty, overwrites}
use trip2world.Realtime.Rooms.{Reaches}
use trip2world.Pairing.Occupancy.{occupied}
use trip2world.Realtime.Events.{handle_all, beats_heart, timer}
use trip2world.Client.Stranded.{next, skip_refused, next_strands}
use trip2world.Client.Page.{Dialogs}
use trip2world.Client.Late.{stale_end, local_end_refused}
use trip2world.Client.Delivery.{asks_queue, deliver}
use trip2world.Pairing.Types.{skipped}
use trip2world.Queue.Repository.{
  check_skip_cooldown, current_match, resolve_peer, get_match_participants, peer_in, is_queued,
}
use trip2world.Realtime.Handlers.{JoinInput, match_skip, queue_join, may_stay}
use trip2world.Client.Actions.{end_conversation, join_queue, skip, leave_queue}
use trip2world.Client.Frames.{
  receive, established, on_connection_state, ice_failed, makes_offer, handle_match_found,
  negotiated, connect_error, on_old_ice_candidate,
}
use trip2world.Pairing.Prepare.{Settings, Tick}
use trip2world.Client.Sound.{Together, about, IsKnown}
use trip2world.Client.Together.{run-Together}
use trip2world.Client.Inputs.{
  Input, run, starts, frame, connect_fails, connects, peer_becomes, step, beat, second, negotiates,
  old_gathers, leaves,
}
use trip2world.Session.{
  SessionState, can_skip, connected, ready, queued, transition_to, can_transition,
}
use trip2world.Client.Types.{
  Stream, Peer, Conversation, Emitted, emits_skip, generic, clear_timers, emits_ice,
}
use trip2world.Realtime.Hub.{
  Hub, Sender, allow, match_ended, take_token, signal, on_offer, match_found, partner_left,
}
use trip2world.Queue.Store.{Store}

abbrev store : Store
store = record {
  entry = λ u. none;
  queue = λ sh. [];
  active_shards = [];
  user_match = λ u. if u == 1 then some 7 else (if u == 2 then some 7 else none);
  match_of = λ m. if m == 7 then some (record { user_a = 1; user_b = 2 }) else none;
  match_lock = λ u. none;
  recent = λ u. [];
  skip_marker = λ u. u == 2;
  block_cache = λ u. some [];
}

-- Users 1 and 2 are in match 7, and user 2 has skipped a moment ago.
abbrev server : Hub
server = record {
  world = record { redis = store; matches = [] };
  presence = record { hashes = λ u. none; sockets = λ u. []; online_set = [] };
  blocks = [];
  report_rows = [];
  buckets = λ socket e. none;
}

abbrev socket_of : ℕ → Sender
socket_of u = record { socket_id = 100 + u; sender_id = u; at_time = 5 }

abbrev one_camera : Stream
one_camera = record { video_tracks = true ∷ []; audio_tracks = true ∷ [] }

abbrev at_rest : SessionState → Conversation
at_rest x = record {
  state = x;
  partner = none;
  match_ref = none;
  messages = [];
  error_shown = none;
  media_failed = false;
  camera_enabled = true;
  microphone_enabled = true;
  waiting_seconds = 0;
  queue_confirmed = false;
  searching_now = none;
  is_connected = true;
  tips = [];
  pending_offer = none;
  token_balance = none;
  has_socket = true;
  connect_attempts = 0;
  peer = none;
  old_peers = [];
  local_stream = some one_camera;
  pending_candidates = [];
  negotiation_timer = false;
  reconnect_timer = false;
  queue_started_at = 0;
}

abbrev link : Peer
link = record { active_match = 7; is_established = true; has_remote_description = true }

abbrev talking : ℕ → Conversation
talking v = record (at_rest connected) { match_ref = some 7; partner = some v; peer = some link }

-- The connection to the server fails five times in a call, and the user leaves the error by the way of
-- the queue and is matched again: the connection of match 7 is never closed.
abbrev two_calls : List Input
two_calls =
    starts 1
    ∷ frame 2 none (match_found 7 2 true)
    ∷ negotiates 3 makes_offer 7 (some (codes "sdp"))
    ∷ peer_becomes established
    ∷ connect_fails
    ∷ connect_fails
    ∷ connect_fails
    ∷ connect_fails
    ∷ connect_fails
    ∷ leaves
    ∷ starts 4
    ∷ frame 5 none (match_found 8 3 false)
    ∷ []

left_open :
    (step (old_gathers 0 (codes "x")) (run two_calls (at_rest ready)).1).0
    ≡ emits_ice 7 (codes "x") ∷ []
unfolding run step join_queue leave_queue receive handle_match_found negotiated on_connection_state
    connect_error on_old_ice_candidate clear_timers transition_to can_transition
left_open = refl

run-Together_example :
    Together (run two_calls (at_rest ready)).1
    × ((is_empty (run two_calls (at_rest ready)).1.old_peers
          || overwrites two_calls (at_rest ready))
        ≡ true)
    × ((e : Emitted) (m : ℕ)
        → In e (step (old_gathers 0 (codes "x")) (run two_calls (at_rest ready)).1).0
        → about e ≡ some m
        → IsKnown (run two_calls (at_rest ready)).1 none m)
unfolding Together
run-Together_example = run-Together two_calls (old_gathers 0 (codes "x")) (at_rest ready) tt refl

abbrev no_wait : Settings
no_wait = record { relaxation_stages = []; skip_cooldown_seconds = 60 }

next_strands_example :
    let pressed = skip 9 true (talking 2) in
    let served = match_skip true 0 1 (socket_of 1) (some (next 7)) server in
    let shown = (deliver (socket_of 1) 10 none served.0 pressed.1).1 in
    (pressed.0 ≡ emits_skip 7 true ∷ [])
    × (shown.state ≡ queued)
    × (shown.queue_confirmed ≡ true)
    × (is_queued 1
          (handle_all no_wait true
            (λ u. true)
            (beats_heart (socket_of 1) ∷ timer [] ∷ [])
            served.1).1.world.redis
        ≡ false)
    × (any asks_queue (run (beat ∷ second 12 ∷ []) shown).0 ≡ false)
unfolding can_skip check_skip_cooldown resolve_peer get_match_participants peer_in is_queued
next_strands_example =
    next_strands no_wait true (λ u. true) 0 1 9 10 7 2 none (socket_of 1) server (talking 2)
      (beats_heart (socket_of 1) ∷ timer [] ∷ []) (beat ∷ second 12 ∷ []) refl refl refl refl refl
      (λ e. omega arith) refl refl refl

skip_refused_example :
    let pressed = skip 9 true (talking 1) in
    let served = match_skip true 1 1 (socket_of 2) (some (next 7)) server in
    let shown = (deliver (socket_of 2) 10 none served.0 pressed.1).1 in
    (pressed.0 ≡ emits_skip 7 true ∷ [])
    × ((v : ℕ) → occupied served.1.world v ≡ occupied server.world v)
    × ((v : ℕ) → ¬ (Reaches v served.0))
    × (shown.state ≡ queued)
    × (shown.error_shown ≡ none)
    × ((skip 10 true shown).0 ≡ [])
    × ((end_conversation shown).0 ≡ [])
unfolding can_skip check_skip_cooldown
skip_refused_example =
    skip_refused true 1 1 9 10 7 none (socket_of 2) server (talking 1) refl refl refl refl

stale_end_example :
    let left = receive 9 none (partner_left 6 skipped) (talking 2) in
    let over = receive 9 none (match_ended 6 skipped false) (talking 2) in
    (receive 9 none (signal on_offer 6 (codes "sdp")) (talking 2) ≡ ([], talking 2))
    × (left.0 ≡ [])
    × (left.1.match_ref ≡ none)
    × (left.1.peer ≡ none)
    × (over.0 ≡ [])
    × (over.1.match_ref ≡ none)
    × (over.1.peer ≡ none)
stale_end_example =
    stale_end 9 6 7 none on_offer (codes "sdp") skipped false (talking 2) refl (λ e. omega arith)

abbrev devices : JoinInput
devices = record {
  has_camera = true;
  has_microphone = true;
  chosen_gender = none;
  chosen_countries = none;
  chosen_languages = none;
  chosen_age_brackets = none;
  chosen_interests = none;
}

abbrev draw : Tick
draw = record { tick_now = 9; token = 100; fresh_match_id = 500; tick_node = 1 }

local_end_refused_example :
    let dead = on_connection_state ice_failed (talking 2) in
    let asked = join_queue 9 dead.1 in
    let served =
      queue_join no_wait draw true (λ u. true) may_stay (socket_of 1) (some devices) none server in
    let shown = (deliver (socket_of 1) 10 none served.0 asked.1).1 in
    (dead.0 ≡ [])
    × (any asks_queue asked.0 ≡ true)
    × (served.1.world ≡ server.world)
    × (occupied served.1.world 1 ≡ some 7)
    × (shown.state ≡ queued)
    × (shown.error_shown ≡ some (record { key = generic; retry = true }))
unfolding can_skip current_match allow take_token
local_end_refused_example =
    local_end_refused no_wait draw true (λ u. true) 9 10 7 none (socket_of 1) devices none server
      (talking 2) link one_camera refl refl refl refl refl refl

-- The connection has failed five times, and the user tries again.
abbrev retried : List Input
retried =
    connect_fails
    ∷ connect_fails
    ∷ connect_fails
    ∷ connect_fails
    ∷ connect_fails
    ∷ starts 9
    ∷ connects
    ∷ []

abbrev report_dialog : Dialogs
report_dialog = record { block_open = false; tip_open = false; report_open = true }
