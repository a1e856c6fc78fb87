-- ===== src/Session/Tests.antt =====
-- The theorems about the session machine at concrete runs.
use trip2world.Prelude.{◌≡◌, refl, List, [], ◌∷◌}
use trip2world.Session.{
  idle, requesting_permissions, ready, queued, match_found, signaling, connecting, connected,
  SessionState, transition_to,
}
use trip2world.Session.Traces.{final}

abbrev happy_path : List SessionState
happy_path =
    requesting_permissions ∷ ready ∷ queued ∷ match_found ∷ signaling ∷ connecting ∷ connected ∷ []

happy_path_connects : final idle happy_path ≡ connected
unfolding final transition_to
happy_path_connects = refl
