-- ===== src/Client/Together.antt =====
-- Any run of the hook: the match, its connection and the partner go together, and what is emitted about
-- a match is about one that the hook knows.
use trip2world.Prelude.{ℕ, ◌≡◌, true, ◌||◌, some, List, [], ◌∷◌, In}
use trip2world.Client.Sound.{Together, about, brings, IsKnown, step-Sound}
use trip2world.Client.Overwritten.{is_empty, overwrites, run_old}
use trip2world.Client.Types.{Conversation, Emitted}
use trip2world.Client.Inputs.{Input, step, run}

run_keeps : (inputs : List Input) (c : Conversation) → Together c → Together (run inputs c).1
unfolding run
run_keeps [] c t = t
run_keeps (i ∷ inputs) c t = run_keeps inputs (step i c).1 (step-Sound i c t).0

-- Through any run of actions, frames, timers and callbacks of the browser, whatever comes while a handler
-- awaits, the match, its connection and the partner that is shown come and go together, and the
-- connection is for that match; no connection is left unclosed unless a match is found while there is
-- one; and whatever the next input makes the hook emit about a match is about that match, the one that
-- the input brings, or that of a connection left unclosed.
-- Assumed: they go together at the start, and no connection is left unclosed.
pub run-Together :
    (inputs : List Input) (i : Input) (c : Conversation)
    → Together c
    → is_empty c.old_peers ≡ true
    → Together (run inputs c).1
      × ((is_empty (run inputs c).1.old_peers || overwrites inputs c) ≡ true)
      × ((e : Emitted) (m : ℕ)
          → In e (step i (run inputs c).1).0
          → about e ≡ some m
          → IsKnown (run inputs c).1 (brings i) m)
run-Together inputs i c t closed = (
  run_keeps inputs c t,
  run_old inputs c closed,
  (step-Sound i (run inputs c).1 (run_keeps inputs c t)).1,
)
