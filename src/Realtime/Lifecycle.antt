-- ===== src/Realtime/Lifecycle.antt =====
-- A socket's connection and its end, the sweep over the queue, and the shutdown of a node.
use trip2world.Prelude.{
  ℕ, ◌-◌, ◌/◌, Bool, true, false, not, ◌&&◌, Option, none, some, List, [], ◌∷◌, ◌++◌, if◌then◌else◌,
  is_some, Text,
}
use trip2world.Queue.Store.{Store}
use trip2world.Queue.Repository.{current_match, leave, is_queued, get_entry, size, position}
use trip2world.Matching.Shards.{global}
use trip2world.Matching.Stages.{relaxation_stage_for}
use trip2world.Matching.Types.{QueueCandidate}
use trip2world.Pairing.Types.{disconnected, server_shutdown}
use trip2world.Pairing.Prepare.{Settings, Tick}
use trip2world.Realtime.Presence.{connect, disconnect, clear_node, heartbeat}
use trip2world.Realtime.Hub.{Hub, Answer, Sender, tell, waiting_for}
use trip2world.Realtime.Matches.{teardown_match, attempt_match, on_store}
use trip2world.Realtime.Handlers.{then_do}

unfoldable pub connection : ℕ → Sender → Hub → Hub
connection this_node s h = record h {
  presence = connect this_node s.at_time s.sender_id s.socket_id h.presence;
}

unfoldable pub presence_heartbeat : Sender → Hub → Hub
presence_heartbeat s h = record h { presence = heartbeat s.at_time s.sender_id h.presence }

abbrev pub end_current : Bool → ℕ → Option ℕ → ℕ → Hub → Answer
end_current db_up now none u h = ([], h)
end_current db_up now (some m) u h = teardown_match db_up now m (some u) disconnected h

-- The conversation ends with the last socket.
unfoldable pub disconnection : Bool → Option Text → Sender → Hub → Answer
disconnection db_up country s h =
    let r = disconnect s.sender_id s.socket_id h.presence in
    let left = record h { presence = r.1 } in
    if r.0
    then then_do (on_store (leave s.sender_id country))
        (end_current db_up s.at_time (current_match s.sender_id h.world.redis) s.sender_id left)
    else ([], left)

-- One user of the tick; a position that cannot be read is none.
abbrev pub wait_hint : Settings → ℕ → ℕ → ℕ → Option QueueCandidate × Store → Hub → Answer
wait_hint cfg now searching u (none, x) h = ([], on_store (λ y. x) h)
wait_hint cfg now searching u (some entry, x) h = (
  tell u (
        waiting_for (position u entry.country_of x) ((now - entry.queued_at) / 1000)
          (relaxation_stage_for entry now cfg.relaxation_stages) searching)
      ∷ [],
  on_store (λ y. x) h,
)

abbrev pub after_sweep : Settings → ℕ → ℕ → ℕ → Bool × Answer → Answer
after_sweep cfg now searching u (true, r) = r
after_sweep cfg now searching u (false, r) =
    let hint = wait_hint cfg now searching u (get_entry u r.1.world.redis) r.1 in
    (r.0 ++ hint.0, hint.1)

unfoldable pub sweep_user : Settings → Tick → Bool → (ℕ → Bool) → ℕ → ℕ → Hub → Answer
sweep_user cfg t db_up exists searching u h =
    if is_queued u h.world.redis && not (is_some (current_match u h.world.redis))
    then after_sweep cfg t.tick_now searching u (attempt_match cfg t db_up exists u h)
    else ([], h)

-- Each turn has its own clock and fresh values.
unfoldable pub sweep : Settings → Bool → (ℕ → Bool) → ℕ → List (ℕ × Tick) → Hub → Answer
sweep cfg db_up exists searching [] h = ([], h)
sweep cfg db_up exists searching ((u, t) ∷ us) h =
    let first = sweep_user cfg t db_up exists searching u h in
    let rest = sweep cfg db_up exists searching us first.1 in (first.0 ++ rest.0, rest.1)

unfoldable pub tick : Settings → Bool → (ℕ → Bool) → List (ℕ × Tick) → Hub → Answer
tick cfg db_up exists us h = sweep cfg db_up exists (size global h.world.redis) us h

abbrev pub drain_current : Bool → ℕ → Option ℕ → Hub → Hub
drain_current db_up now none h = h
drain_current db_up now (some m) h = (teardown_match db_up now m none server_shutdown h).1

unfoldable pub drain : Bool → ℕ → List ℕ → Hub → Hub
drain db_up now [] h = h
drain db_up now (u ∷ us) h =
    drain db_up now us
      (on_store (leave u none) (drain_current db_up now (current_match u h.world.redis) h))

-- The users of the local sockets, here one after another.
unfoldable pub shutdown : Bool → ℕ → ℕ → List ℕ → Hub → Hub
shutdown db_up now this_node us h =
    let drained = drain db_up now us h in
    record drained { presence = clear_node this_node drained.presence }
