-- ===== src/Session/Traces.antt =====
-- What holds of every sequence of moves that the client makes.
use trip2world.Prelude.{
  Bool, true, false, ◌≡◌, ◌≢◌, ◌⊎◌, inl, inr, none, some, List, [], ◌∷◌, In, arith, ◌↔◌,
  if◌then◌else◌,
}
use trip2world.Session.{
  SessionState, idle, ready, queued, match_found, signaling, connecting, connected, reconnecting,
  error, skipping, can_transition, transition, transition_to, is_in_match, can_skip, is_busy,
  needs_local_media, skip,
}

-- The states after each request of a list.
unfoldable pub visited : SessionState → List SessionState → List SessionState
visited s [] = []
visited s (next ∷ rest) = transition_to s next ∷ visited (transition_to s next) rest

unfoldable pub final : SessionState → List SessionState → SessionState
final s [] = s
final s (next ∷ rest) = final (transition_to s next) rest

-- A move is granted or the state stays as it was; a granted move ends where it was asked to.
pub transition_to-transition :
    (s next : SessionState)
    → ((transition s next ≡ some next) × (transition_to s next ≡ next))
      ⊎ ((transition s next ≡ none) × (transition_to s next ≡ s))
unfolding transition transition_to
transition_to-transition s next = ground arith

enters_by_found :
    (s next : SessionState)
    → is_in_match s ≡ false
    → (match_found ≡ transition_to s next) ⊎ (is_in_match (transition_to s next) ≡ false)
unfolding is_in_match transition_to
enters_by_found s next h = ground arith

-- From a state outside a match, every run of requests that ends in a match state went through
-- MATCH_FOUND.
pub match_needs_found :
    (s : SessionState) (requests : List SessionState)
    → is_in_match s ≡ false
    → is_in_match (final s requests) ≡ true
    → In match_found (visited s requests)
unfolding final visited
match_needs_found s [] h l = cc
match_needs_found s (next ∷ rest) h l = elim (enters_by_found s next h) [
  | inl found ↦ inl found
  | inr outside ↦ inr (match_needs_found (transition_to s next) rest outside l)
]

-- The states in which peers have begun to signal.
abbrev pub has_signaled : SessionState → Bool
has_signaled signaling = true
has_signaled connecting = true
has_signaled connected = true
has_signaled reconnecting = true
has_signaled _ = false

signals_by_signaling :
    (s next : SessionState)
    → has_signaled s ≡ false
    → (signaling ≡ transition_to s next) ⊎ (has_signaled (transition_to s next) ≡ false)
unfolding transition_to
signals_by_signaling s next h = ground arith

-- From a state before signaling, every run of requests that ends CONNECTED went through SIGNALING.
pub connected_needs_signaling :
    (s : SessionState) (requests : List SessionState)
    → has_signaled s ≡ false
    → has_signaled (final s requests) ≡ true
    → In signaling (visited s requests)
unfolding final visited
connected_needs_signaling s [] h l = cc
connected_needs_signaling s (next ∷ rest) h l = elim (signals_by_signaling s next h) [
  | inl found ↦ inl found
  | inr before ↦ inr (connected_needs_signaling (transition_to s next) rest before l)
]

-- Wherever Next is enabled, pressing it ends in QUEUED, or in READY without requeueing; the user
-- is then out of the match.
pub skip_lands :
    (s : SessionState) (requeue : Bool)
    → can_skip s ≡ true
    → (is_in_match s ≡ true)
      × (skip s requeue ≡ (if requeue then queued else ready))
      × (is_in_match (skip s requeue) ≡ false)
unfolding can_skip skip is_in_match
skip_lands s requeue h = ground arith

-- Of the states in which Next is enabled, RECONNECTING alone has no legal move to SKIPPING.
pub skipping_legal :
    (s : SessionState) → can_skip s ≡ true → (can_transition s skipping ≡ true) ↔ (s ≢ reconnecting)
unfolding can_skip can_transition
skipping_legal s h = ground arith

-- From every state a request for READY, IDLE or ERROR is granted; local media is needed in every
-- match state and in every busy state.
pub always_leaves :
    (s : SessionState)
    → (transition_to s ready ≡ ready)
      × (transition_to s idle ≡ idle)
      × (transition_to s error ≡ error)
      × (is_in_match s ≡ true → needs_local_media s ≡ true)
      × (is_busy s ≡ true → needs_local_media s ≡ true)
unfolding transition_to is_in_match is_busy needs_local_media
always_leaves s = ground arith
