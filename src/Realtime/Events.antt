-- ===== src/Realtime/Events.antt =====
-- What the server handles, one occurrence at a time: the socket events of apps/realtime/src/server.ts
-- that can touch a match, its timers, and the expiry of a user's occupancy. The payments change no
-- match. Each is under the hub that the ones before have left.
use trip2world.Matching.Shards.{global}
use trip2world.Queue.Repository.{size}
use trip2world.Realtime.Lifecycle.{
  connection, sweep_user, presence_heartbeat, disconnection, tick, shutdown,
}
use trip2world.Pairing.Prepare.{Tick, Settings}
use trip2world.Prelude.{ℕ, Bool, Option, List, [], ◌∷◌, ◌++◌, Text}
use trip2world.Realtime.Hub.{Event, Sender, Hub, Answer}
use trip2world.Realtime.Safety.{BlockInput, ReportInput, user_block, user_report}
use trip2world.Realtime.Handlers.{
  JoinInput, CandidateRow, SkipInput, SignalInput, queue_join, queue_leave, match_skip, match_end,
  match_connected, relay, chat_message, Standing,
}
use trip2world.Realtime.Housed.{free_user, Unused}

pub data Occurrence : Type 0 where
  joins : Tick → Standing → Sender → Option JoinInput → Option CandidateRow → Occurrence
  leaves : Option Text → Sender → Occurrence
  skips : ℕ → ℕ → Sender → Option SkipInput → Occurrence
  ends_match connects_match : Sender → Option ℕ → Occurrence
  signals : Event → Sender → Option SignalInput → Occurrence
  chats : Sender → Option SignalInput → Occurrence
  blocks_user : Sender → Option BlockInput → Occurrence
  reports_user : Sender → Option ReportInput → Occurrence
  opens : ℕ → Sender → Occurrence
  beats_heart : Sender → Occurrence
  closes : Option Text → Sender → Occurrence
  timer : List (ℕ × Tick) → Occurrence
  shuts_down : ℕ → ℕ → List ℕ → Occurrence
  occupancy_lost : ℕ → Occurrence

-- `db_up` is whether the database answers, and `exists` whether a profile can be loaded.
module _ (cfg : Settings) (db_up : Bool) (exists : ℕ → Bool) where
  unfoldable pub handle : Occurrence → Hub → Answer
  handle (joins t standing s payload row) h = queue_join cfg t db_up exists standing s payload row h
  handle (leaves country s) h = queue_leave country s h
  handle (skips ttl min_seconds s payload) h = match_skip db_up ttl min_seconds s payload h
  handle (ends_match s m) h = match_end db_up s m h
  handle (connects_match s m) h = match_connected s m h
  handle (signals e s payload) h = relay e s payload h
  handle (chats s payload) h = chat_message s payload h
  handle (blocks_user s payload) h = user_block db_up s payload h
  handle (reports_user s payload) h = user_report db_up s payload h
  handle (opens this_node s) h = ([], connection this_node s h)
  handle (beats_heart s) h = ([], presence_heartbeat s h)
  handle (closes country s) h = disconnection db_up country s h
  handle (timer us) h = tick cfg db_up exists us h
  handle (shuts_down now this_node us) h = ([], shutdown db_up now this_node us h)
  handle (occupancy_lost u) h = ([], free_user u h)

  unfoldable pub handle_all : List Occurrence → Hub → Answer
  handle_all [] h = ([], h)
  handle_all (o ∷ os) h =
      let first = handle o h in let rest = handle_all os first.1 in (first.0 ++ rest.0, rest.1)

  -- Each turn of a sweep draws an id that no room has by then.
  unfoldable pub SweepsUnused : ℕ → List (ℕ × Tick) → Hub → Type 0
  SweepsUnused searching [] h = Unit
  SweepsUnused searching ((u, t) ∷ us) h =
      Unused t h × SweepsUnused searching us (sweep_user cfg t db_up exists searching u h).1

  abbrev pub DrawsUnused : Occurrence → Hub → Type 0
  DrawsUnused (joins t standing s payload row) h = Unused t h
  DrawsUnused (timer us) h = SweepsUnused (size global h.world.redis) us h
  DrawsUnused _ h = Unit

  -- Every match id that is drawn in a run is that of no room at that time.
  unfoldable pub AllUnused : List Occurrence → Hub → Type 0
  AllUnused [] h = Unit
  AllUnused (o ∷ os) h = DrawsUnused o h × AllUnused os (handle o h).1
