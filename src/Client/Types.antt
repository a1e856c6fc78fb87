-- ===== src/Client/Types.antt =====
-- What `useConversation` keeps. The match id as state and as a reference are set together, so they are
-- one field. The camera's zoom, the sampled quality, the texts of errors and the shared interests are
-- left out.
use trip2world.Prelude.{ℕ, Bool, false, Option, none, List, [], ◌∷◌, if◌then◌else◌, Text}
use trip2world.Prelude.Int.{ℤ}
use trip2world.Session.{SessionState, transition_to, partner_left}

pub record ChatMessage : Type 0 where
  pub chat_match : ℕ
  pub chat_sender : ℕ
  pub chat_body : Text

pub record Tip : Type 0 where
  pub tip_id : ℕ
  pub tip_call : ℕ
  pub tip_from : ℕ
  pub tip_amount : ℤ
  pub offered_seconds : Option ℕ
  pub is_own : Bool

pub data ConversationErrorKey : Type 0 where
  camera_switch no_connection banned suspended generic : ConversationErrorKey

pub record ConversationError : Type 0 where
  pub key : ConversationErrorKey
  pub retry : Bool

-- A track by whether it is enabled.
pub record Stream : Type 0 where
  pub video_tracks : List Bool
  pub audio_tracks : List Bool

-- An RTCPeerConnection that is not closed, with the match id that its handlers have captured.
pub record Peer : Type 0 where
  pub active_match : ℕ
  pub is_established : Bool
  pub has_remote_description : Bool

pub record Conversation : Type 0 where
  pub state : SessionState
  pub partner : Option ℕ
  pub match_ref : Option ℕ
  pub messages : List ChatMessage
  pub error_shown : Option ConversationError
  pub media_failed : Bool
  pub camera_enabled : Bool
  pub microphone_enabled : Bool
  pub waiting_seconds : ℕ
  pub queue_confirmed : Bool
  pub searching_now : Option ℕ
  pub is_connected : Bool
  pub tips : List Tip
  pub pending_offer : Option Tip
  pub token_balance : Option ℕ
  pub has_socket : Bool
  pub connect_attempts : ℕ
  pub peer : Option Peer
  -- Connections that `peerRef` has held and that were overwritten without being closed: their handlers
  -- live on.
  pub old_peers : List Peer
  pub local_stream : Option Stream
  pub pending_candidates : List Text
  pub negotiation_timer : Bool
  pub reconnect_timer : Bool
  pub queue_started_at : ℕ

-- What the hook emits on its socket.
pub data Emitted : Type 0 where
  emits_queue_join : Bool → Bool → Emitted
  emits_queue_leave emits_heartbeat : Emitted
  emits_skip : ℕ → Bool → Emitted
  emits_end emits_connected : ℕ → Emitted
  emits_offer emits_answer emits_ice emits_chat : ℕ → Text → Emitted
  emits_tip : ℕ → ℤ → Option ℕ → Emitted
  emits_response : ℕ → Bool → Emitted
  emits_report : Option ℕ → ℕ → Bool → Emitted
  emits_block : ℕ → Option ℕ → Emitted

abbrev pub Turn : Type 0
Turn = List Emitted × Conversation

-- `socketRef.current?.emit`
abbrev pub emit : Emitted → Conversation → List Emitted
emit e c = if c.has_socket then e ∷ [] else []

-- `transitionTo` on the state that is kept.
abbrev pub move : SessionState → Conversation → Conversation
move next c = record c { state = transition_to c.state next }

unfoldable pub clear_timers : Conversation → Conversation
clear_timers c = record c { negotiation_timer = false; reconnect_timer = false }

unfoldable pub close_peer : Conversation → Conversation
unfolding clear_timers
close_peer c = record (clear_timers c) {
  peer = none;
  pending_candidates = [];
  match_ref = none;
  partner = none;
  messages = [];
  tips = [];
  pending_offer = none;
}

unfoldable pub end_match_locally : Conversation → Conversation
end_match_locally c = move partner_left (close_peer c)
