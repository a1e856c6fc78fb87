-- ===== src/Client/Actions.antt =====
-- The public actions of the hook. `now` is `Date.now()`.
use trip2world.Prelude.{
  ℕ, Bool, true, false, not, Option, none, some, List, [], ◌∷◌, ltb, ◌==◌, if◌then◌else◌, length,
  any, Text, is_blank,
}
use trip2world.Prelude.Int.{ℤ}
use trip2world.Client.Types.{
  Conversation, Stream, Turn, Tip, emit, move, close_peer, emits_queue_join, emits_queue_leave,
  emits_skip, emits_end, emits_tip, emits_response, emits_chat, emits_report, emits_block, Emitted,
}
use trip2world.Session.{requesting_permissions, ready, queued, skipping, can_transition, error}

-- `startMedia` up to its await, and what the browser answers: a stream, or a failure.
unfoldable pub start_media : Conversation → Conversation
start_media c = move requesting_permissions (record c { media_failed = false })

unfoldable pub media_answered : Option Stream → Conversation → Conversation
media_answered none c = move error (record c { media_failed = true })
media_answered (some stream) c = move ready (record c {
  local_stream = some stream;
  camera_enabled = any (λ t. t) stream.video_tracks;
  microphone_enabled = any (λ t. t) stream.audio_tracks;
})

abbrev with_stream : ℕ → Option Stream → Conversation → Turn
with_stream now none c = ([], c)
with_stream now (some stream) c =
    let fresh = record c { queue_started_at = now; waiting_seconds = 0; error_shown = none } in
    if not (can_transition c.state queued) then ([], fresh) else (
      emit
          (emits_queue_join (ltb 0 (length stream.video_tracks))
            (ltb 0 (length stream.audio_tracks)))
          c,
      move queued fresh,
    )

unfoldable pub join_queue : ℕ → Conversation → Turn
join_queue now c = if not c.has_socket then ([], c) else with_stream now c.local_stream c

unfoldable pub leave_queue : Conversation → Turn
leave_queue c = (
  emit emits_queue_leave c,
  move ready (record c { queue_confirmed = false; searching_now = none }),
)

abbrev skip_current : ℕ → Bool → Option ℕ → Conversation → Turn
skip_current now requeue none c = ([], c)
skip_current now requeue (some m) c = (
  emit (emits_skip m requeue) c,
  let closed = close_peer (move skipping c) in
      if requeue
      then move queued (record closed { queue_started_at = now; waiting_seconds = 0 })
      else move ready closed,
)

unfoldable pub skip : ℕ → Bool → Conversation → Turn
skip now requeue c = skip_current now requeue c.match_ref c

abbrev end_current_call : Option ℕ → Conversation → List Emitted
end_current_call none c = []
end_current_call (some m) c = emit (emits_end m) c

unfoldable pub end_conversation : Conversation → Turn
end_conversation c = (end_current_call c.match_ref c, move ready (close_peer c))

-- A track set to a value, and every track of a kind to the opposite of whether one is enabled.
abbrev enable_all : Bool → List Bool → List Bool
enable_all on [] = []
enable_all on (t ∷ ts) = on ∷ enable_all on ts

unfoldable pub toggle : List Bool → List Bool
toggle tracks = enable_all (not (any (λ t. t) tracks)) tracks

abbrev video_of : Option Stream → List Bool
video_of none = []
video_of (some stream) = stream.video_tracks

abbrev audio_of : Option Stream → List Bool
audio_of none = []
audio_of (some stream) = stream.audio_tracks

abbrev set_video : List Bool → Option Stream → Option Stream
set_video tracks none = none
set_video tracks (some stream) = some (record stream { video_tracks = tracks })

abbrev set_audio : List Bool → Option Stream → Option Stream
set_audio tracks none = none
set_audio tracks (some stream) = some (record stream { audio_tracks = tracks })

unfoldable pub toggle_camera : Conversation → Conversation
toggle_camera c = record c {
  local_stream = set_video (toggle (video_of c.local_stream)) c.local_stream;
  camera_enabled = not (any (λ t. t) (video_of c.local_stream));
}

unfoldable pub toggle_microphone : Conversation → Conversation
toggle_microphone c = record c {
  local_stream = set_audio (toggle (audio_of c.local_stream)) c.local_stream;
  microphone_enabled = not (any (λ t. t) (audio_of c.local_stream));
}

abbrev tip_current : ℤ → Option ℕ → Option ℕ → Conversation → List Emitted
tip_current tokens seconds none c = []
tip_current tokens seconds (some m) c = emit (emits_tip m tokens seconds) c

unfoldable pub send_tip : ℤ → Option ℕ → Conversation → Turn
send_tip tokens seconds c = (tip_current tokens seconds c.match_ref c, c)

-- `current?.tipId === tipId ? null : current`
abbrev pub settle_offer : ℕ → Option Tip → Option Tip
settle_offer tip none = none
settle_offer tip (some t) = if t.tip_id == tip then none else some t

unfoldable pub respond_to_offer : ℕ → Bool → Conversation → Turn
respond_to_offer tip accepted c = (
  emit (emits_response tip accepted) c,
  record c { pending_offer = settle_offer tip c.pending_offer },
)

abbrev chat_current : Text → Option ℕ → Conversation → List Emitted
chat_current body none c = []
chat_current body (some m) c = emit (emits_chat m body) c

unfoldable pub send_message : Text → Conversation → Turn
send_message body c = (if is_blank body then [] else chat_current body c.match_ref c, c)

abbrev report_current : Option ℕ → Conversation → Turn
report_current none c = ([], c)
report_current (some v) c = (emit (emits_report c.match_ref v true) c, move ready (close_peer c))

unfoldable pub report_partner : Conversation → Turn
report_partner c = report_current c.partner c

abbrev block_current : Option ℕ → Conversation → Turn
block_current none c = ([], c)
block_current (some v) c = (emit (emits_block v c.match_ref) c, move ready (close_peer c))

unfoldable pub block_partner : Conversation → Turn
block_partner c = block_current c.partner c
