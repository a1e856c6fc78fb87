-- ===== src/Session.antt =====
-- packages/shared/src/session-machine.ts: the client's conversation states, the legal moves
-- between them, and the flags that the screens read.
pub mod Traces
mod Tests
use trip2world.Prelude.{
  Bool, true, false, not, ◌||◌, Option, none, some, List, [], ◌∷◌, any, if◌then◌else◌,
}

pub data SessionState : Type 0 where
  idle requesting_permissions ready queued match_found signaling connecting connected : SessionState
  partner_left skipping reconnecting error : SessionState

-- `===` on the states, by their place in the enumeration.
abbrev state_eq : SessionState → SessionState → Bool
state_eq idle idle = true
state_eq requesting_permissions requesting_permissions = true
state_eq ready ready = true
state_eq queued queued = true
state_eq match_found match_found = true
state_eq signaling signaling = true
state_eq connecting connecting = true
state_eq connected connected = true
state_eq partner_left partner_left = true
state_eq skipping skipping = true
state_eq reconnecting reconnecting = true
state_eq error error = true
state_eq _ _ = false

abbrev includes_state : List SessionState → SessionState → Bool
includes_state xs s = any (state_eq s) xs

abbrev always_allowed : List SessionState
always_allowed = error ∷ idle ∷ []

-- The forward moves of the table, less the escapes to ERROR and IDLE.
transitions : SessionState → List SessionState
transitions idle = requesting_permissions ∷ ready ∷ []
transitions requesting_permissions = ready ∷ []
transitions ready = queued ∷ requesting_permissions ∷ []
transitions queued = match_found ∷ ready ∷ []
transitions match_found = signaling ∷ queued ∷ ready ∷ []
transitions signaling = connecting ∷ partner_left ∷ skipping ∷ queued ∷ ready ∷ []
transitions connecting = connected ∷ reconnecting ∷ partner_left ∷ skipping ∷ queued ∷ ready ∷ []
transitions connected = skipping ∷ partner_left ∷ reconnecting ∷ ready ∷ []
transitions partner_left = queued ∷ ready ∷ []
transitions skipping = queued ∷ ready ∷ []
transitions reconnecting = connected ∷ partner_left ∷ queued ∷ ready ∷ []
transitions error = ready ∷ requesting_permissions ∷ []

unfoldable pub can_transition : SessionState → SessionState → Bool
unfolding transitions
can_transition source target =
    if state_eq source target
    then true
    else if includes_state always_allowed target
    then true
    else includes_state (transitions source) target

-- `transition`: `none` is the InvalidSessionTransitionError.
pub transition : SessionState → SessionState → Option SessionState
unfolding can_transition
transition source target = if not (can_transition source target) then none else some target

abbrev in_match_states : List SessionState
in_match_states = match_found ∷ signaling ∷ connecting ∷ connected ∷ reconnecting ∷ []

unfoldable pub is_in_match : SessionState → Bool
is_in_match state = includes_state in_match_states state

pub is_busy : SessionState → Bool
is_busy state =
    state_eq state requesting_permissions
    || (state_eq state queued
        || (state_eq state match_found
            || (state_eq state signaling
                || (state_eq state connecting
                    || (state_eq state reconnecting || state_eq state skipping)))))

unfoldable pub can_skip : SessionState → Bool
can_skip state =
    state_eq state connected
    || (state_eq state connecting || (state_eq state signaling || state_eq state reconnecting))

pub needs_local_media : SessionState → Bool
needs_local_media state = if state_eq state idle then false else not (state_eq state error)

-- `transitionTo` of the client's hook: an illegal move is dropped, and the state stays.
unfoldable pub transition_to : SessionState → SessionState → SessionState
unfolding can_transition
transition_to state next = if not (can_transition state next) then state else next

-- The moves that `skip` of the client's hook asks for, in order.
unfoldable pub skip : SessionState → Bool → SessionState
unfolding transition_to
skip state requeue =
    let skipped = transition_to state skipping in
    if requeue then transition_to skipped queued else transition_to skipped ready
