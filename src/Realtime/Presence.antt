-- ===== src/Realtime/Presence.antt =====
-- PresenceService (apps/realtime/src/presence.ts): the presence hash and the set of sockets of each
-- user, both with a TTL, and the set of who is online, without one.
use trip2world.Prelude.{
  ℕ, Bool, true, false, not, Option, none, some, List, [], ◌∷◌, ltb, ◌==◌, if◌then◌else◌, is_some,
  get_or, length, filter, includes, at_key,
}

pub data PresenceState : Type 0 where
  offline online matching connected : PresenceState

-- A hash has the fields that were written since it was made.
pub record PresenceHash : Type 0 where
  pub state : Option PresenceState
  pub node : Option ℕ
  pub last_seen_at : ℕ

pub record PresenceTable : Type 0 where
  pub hashes : ℕ → Option PresenceHash
  pub sockets : ℕ → List ℕ
  pub online_set : List ℕ

-- SADD and SREM, on a list without doubles.
abbrev pub sadd : ℕ → List ℕ → List ℕ
sadd n xs = if includes xs n then xs else n ∷ xs

abbrev pub srem : ℕ → List ℕ → List ℕ
srem n xs = filter (λ x. not (x == n)) xs

unfoldable pub connect : ℕ → ℕ → ℕ → ℕ → PresenceTable → PresenceTable
connect this_node now u socket p = record {
  hashes =
      at_key p.hashes u
        (some (record { state = some online; node = some this_node; last_seen_at = now }));
  sockets = at_key p.sockets u (sadd socket (p.sockets u));
  online_set = sadd u p.online_set;
}

abbrev pub seen : ℕ → Option PresenceHash → PresenceHash
seen now none = record { state = none; node = none; last_seen_at = now }
seen now (some h) = record h { last_seen_at = now }

unfoldable pub heartbeat : ℕ → ℕ → PresenceTable → PresenceTable
heartbeat now u p = record p { hashes = at_key p.hashes u (some (seen now (p.hashes u))) }

unfoldable pub set_state : ℕ → ℕ → PresenceState → PresenceTable → PresenceTable
set_state now u st p = record p {
  hashes = at_key p.hashes u (some (record (seen now (p.hashes u)) { state = some st }));
}

abbrev pub drop_user : ℕ → PresenceTable → PresenceTable
drop_user u p = record {
  hashes = at_key p.hashes u none;
  sockets = at_key p.sockets u [];
  online_set = srem u p.online_set;
}

-- Whether that was the last socket of the user.
unfoldable pub disconnect : ℕ → ℕ → PresenceTable → Bool × PresenceTable
disconnect u socket p =
    let gone = record p { sockets = at_key p.sockets u (srem socket (p.sockets u)) } in
    if ltb 0 (length (srem socket (p.sockets u))) then (false, gone) else (true, drop_user u gone)

abbrev pub state_in : Option PresenceHash → PresenceState
state_in none = offline
state_in (some h) = get_or h.state offline

unfoldable pub get_state : ℕ → PresenceTable → PresenceState
get_state u p = state_in (p.hashes u)

unfoldable pub is_online : ℕ → PresenceTable → Bool
is_online u p = is_some (p.hashes u)

unfoldable pub online_count : PresenceTable → ℕ
online_count p = length p.online_set

-- `results[index]?.[1] === this.nodeId`
abbrev pub on_node : ℕ → Option PresenceHash → Bool
on_node this_node none = false
on_node this_node (some h) = elim (h.node) [ none ↦ false | some n ↦ n == this_node ]

-- The reads of `clearNode` precede its writes.
unfoldable pub drop_users : List ℕ → PresenceTable → PresenceTable
drop_users [] p = p
drop_users (u ∷ us) p = drop_users us (drop_user u p)

unfoldable pub clear_node : ℕ → PresenceTable → PresenceTable
clear_node this_node p = drop_users (filter (λ u. on_node this_node (p.hashes u)) p.online_set) p

-- The TTL of a user's keys runs out.
unfoldable pub expire_keys : ℕ → PresenceTable → PresenceTable
expire_keys u p = record p { hashes = at_key p.hashes u none; sockets = at_key p.sockets u [] }
