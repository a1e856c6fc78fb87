-- ===== src/Realtime/Hub.antt =====
-- What the server keeps and sends. A payload comes as the schema has parsed it, `none` when it has not;
-- a frame goes to one socket or to all of a user's. A call of Redis or of the database that fails, which
-- ends a handler with an error frame, is left out.
use trip2world.Prelude.Int.{ℤ}
use trip2world.Prelude.{
  ℕ, suc, ◌+◌, Bool, true, false, ◌&&◌, Option, none, some, List, [], ◌∷◌, leb, ◌==◌, if◌then◌else◌,
  Text,
}
use trip2world.Pairing.Types.{World, MatchEndReason}
use trip2world.Realtime.Presence.{PresenceTable}

pub data Event : Type 0 where
  on_queue_join on_offer on_answer on_ice on_chat on_report on_tip on_tip_response : Event

abbrev pub event_eq : Event → Event → Bool
event_eq on_queue_join on_queue_join = true
event_eq on_offer on_offer = true
event_eq on_answer on_answer = true
event_eq on_ice on_ice = true
event_eq on_chat on_chat = true
event_eq on_report on_report = true
event_eq on_tip on_tip = true
event_eq on_tip_response on_tip_response = true
event_eq _ _ = false

pub record Bucket : Type 0 where
  pub count : ℕ
  pub reset_at : ℕ

pub record BlockRow : Type 0 where
  pub blocker_id : ℕ
  pub blocked_user_id : ℕ

pub record ReportRow : Type 0 where
  pub reporter_id : ℕ
  pub reported_user_id : ℕ
  pub reported_match : Option ℕ

pub record Hub : Type 0 where
  pub world : World
  pub presence : PresenceTable
  pub blocks : List BlockRow
  pub report_rows : List ReportRow
  pub buckets : ℕ → Event → Option Bucket

pub data RealtimeErrorCode : Type 0 where
  rate_limited invalid_payload already_matched not_in_match skip_cooldown account_restricted
        internal :
      RealtimeErrorCode

-- `restriction` is account:restricted, for a ban or for a suspension.
pub data Message : Type 0 where
  restriction : Bool → Message
  failed : RealtimeErrorCode → Message
  match_found : ℕ → ℕ → Bool → Message
  partner_left : ℕ → MatchEndReason → Message
  match_ended : ℕ → MatchEndReason → Bool → Message
  queue_joined queue_left acknowledged : Message
  signal : Event → ℕ → Text → Message
  chat : ℕ → ℕ → Text → Message
  waiting_for : Option ℕ → ℕ → ℕ → ℕ → Message
  tip_arrived : ℕ → ℕ → ℕ → ℤ → Option ℕ → Bool → Message
  tokens_balance : ℕ → Message
  offer_resolved : ℕ → Bool → Option ℕ → Message

pub data Address : Type 0 where
  to_socket to_user : ℕ → Address

pub record Frame : Type 0 where
  pub address : Address
  pub message : Message

-- The socket that an event comes from, and the time at which it does.
pub record Sender : Type 0 where
  pub socket_id : ℕ
  pub sender_id : ℕ
  pub at_time : ℕ

abbrev pub Answer : Type 0
Answer = List Frame × Hub

abbrev pub reply : Sender → Message → Frame
reply s m = record { address = to_socket s.socket_id; message = m }

abbrev pub tell : ℕ → Message → Frame
tell u m = record { address = to_user u; message = m }

abbrev pub fail : Sender → RealtimeErrorCode → Hub → Answer
fail s code h = (reply s (failed code) ∷ [], h)

-- The token bucket of a socket and an event.
unfoldable pub take_token : ℕ → ℕ → ℕ → Option Bucket → Bool × Bucket
take_token now limit window none = (true, record { count = 1; reset_at = now + window })
take_token now limit window (some b) =
    if leb b.reset_at now
    then (true, record { count = 1; reset_at = now + window })
    else (leb (suc b.count) limit, record { count = suc b.count; reset_at = b.reset_at })

abbrev pub put_bucket : ℕ → Event → Bucket → (ℕ → Event → Option Bucket) → ℕ → Event → Option Bucket
put_bucket socket e b f k d = if (k == socket) && event_eq d e then some b else f k d

unfoldable pub allow : Sender → Event → ℕ → ℕ → Hub → Bool × Hub
allow s e limit window h =
    let r = take_token s.at_time limit window (h.buckets s.socket_id e) in
    (r.0, record h { buckets = put_bucket s.socket_id e r.1 h.buckets })

-- An event behind its bucket.
abbrev pub limited : Sender → Bool × Hub → (Hub → Answer) → Answer
limited s r body = if r.0 then body r.1 else fail s rate_limited r.1
