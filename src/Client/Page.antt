-- ===== src/Client/Page.antt =====
-- The controls that the discover page (apps/web/src/app/[locale]/discover/page.tsx) offers for what the
-- hook shows, and the state that none of them leaves.
use trip2world.Prelude.{
  ℕ, ◌≡◌, Bool, true, false, not, ◌&&◌, ◌||◌, Option, none, some, ◌==◌, is_some, any,
}
use trip2world.Realtime.Hub.{match_ended}
use trip2world.Client.Types.{Conversation, ConversationError, Tip, Turn}
use trip2world.Client.Inputs.{
  Input, asks_media, leaves, ends, camera, microphone, reports, blocks, media, starts, presses_next,
  tips_partner, answers_offer, frame,
}
use trip2world.Client.Delivery.{asks_queue}
use trip2world.Session.{
  SessionState, idle, ready, queued, match_found, signaling, connecting, connected, partner_left,
  reconnecting, error,
}

abbrev in_call : SessionState → Bool
in_call connected = true
in_call connecting = true
in_call signaling = true
in_call reconnecting = true
in_call _ = false

abbrev searching : SessionState → Bool
searching queued = true
searching match_found = true
searching _ = false

-- The stage with the start button.
abbrev at_start : SessionState → Bool
at_start idle = true
at_start ready = true
at_start _ = false

abbrev is_left : SessionState → Bool
is_left partner_left = true
is_left _ = false

abbrev is_queued_stage : SessionState → Bool
is_queued_stage queued = true
is_queued_stage _ = false

abbrev can_retry : SessionState → Option ConversationError → Bool
can_retry error (some e) = e.retry
can_retry _ _ = false

abbrev is_pending : ℕ → Option Tip → Bool
is_pending tip none = false
is_pending tip (some t) = t.tip_id == tip

-- The dialogs that the page has opened: a control of the bar opens one, and only the dialog itself closes
-- it, so that it may be open in any state.
pub record Dialogs : Type 0 where
  pub block_open : Bool
  pub tip_open : Bool
  pub report_open : Bool

-- Whether a control of the stage makes that input; `retryable` is whether the failure of the media, if
-- there is one, can be tried again. Start is pressed twice here: it asks for the media, unless they are
-- there, and then for the queue.
abbrev stage_offers : Bool → Conversation → Input → Bool
stage_offers retryable c asks_media =
    (c.media_failed && retryable)
    || (at_start c.state && not c.media_failed && not (is_some c.local_stream))
stage_offers retryable c (starts now) =
    (at_start c.state && not c.media_failed) || is_left c.state || can_retry c.state c.error_shown
stage_offers retryable c leaves = searching c.state
stage_offers retryable c ends = is_left c.state
stage_offers retryable c _ = false

-- The control bar.
abbrev bar_offers : Conversation → Input → Bool
bar_offers c ends = in_call c.state || is_queued_stage c.state
bar_offers c camera = is_some c.local_stream
bar_offers c microphone = is_some c.local_stream
bar_offers c (presses_next now requeue) = requeue && in_call c.state
bar_offers c _ = false

abbrev dialogs_offer : Dialogs → Conversation → Input → Bool
dialogs_offer d c blocks = d.block_open && is_some c.partner
dialogs_offer d c (tips_partner tokens seconds) = d.tip_open && is_some c.partner
dialogs_offer d c reports = d.report_open && is_some c.partner
dialogs_offer d c _ = false

abbrev prompt_offers : Conversation → Input → Bool
prompt_offers c (answers_offer tip accepted) = is_pending tip c.pending_offer
prompt_offers c _ = false

-- Whether a control of the page makes that input.
unfoldable pub offers : Bool → Dialogs → Conversation → Input → Bool
offers retryable d c i =
    stage_offers retryable c i || bar_offers c i || dialogs_offer d c i || prompt_offers c i

-- The inputs that can take the hook out of ERROR: the actions of the user that ask for READY or for the
-- media, and the end of a match.
abbrev pub is_way_out : Input → Bool
is_way_out asks_media = true
is_way_out (media answer) = true
is_way_out leaves = true
is_way_out ends = true
is_way_out reports = true
is_way_out blocks = true
is_way_out (presses_next now requeue) = true
is_way_out (frame now sdp (match_ended m reason requeued)) = true
is_way_out _ = false

-- Whether an input is the end of the call by a dialog that is open.
abbrev pub is_of_dialog : Dialogs → Input → Bool
is_of_dialog d blocks = d.block_open
is_of_dialog d reports = d.report_open
is_of_dialog d _ = false

abbrev Stuck : Conversation → Turn → Type 0
Stuck c r =
    (r.1.state ≡ error)
    × (r.1.media_failed ≡ false)
    × (any asks_queue r.0 ≡ false)
    × ((is_some r.1.partner && not (is_some c.partner)) ≡ false)
