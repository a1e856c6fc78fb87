-- ===== src/Queue/Store.antt =====
-- The keys of packages/shared/src/redis-keys.ts that the queue uses, as one record: a string or
-- hash key is a function that may have no value, a sorted set is a list in the order of ZRANGE, by
-- score and then by member. A key that outlives its TTL is dropped by `expire` steps of a client.
use trip2world.Prelude.{
  ℕ, Bool, true, false, Option, none, some, List, ◌==◌, if◌then◌else◌, is_some, at_key,
}
use trip2world.Matching.Types.{QueueCandidate}
use trip2world.Matching.Shards.{Shard, shard_eq}

-- Score and member.
abbrev pub ZSet : Type 0
ZSet = List (ℕ × ℕ)

-- What a queue-entry key holds: JSON that parses to a snapshot, or text that does not parse.
pub data Entry : Type 0 where
  json : QueueCandidate → Entry
  corrupt : Entry

pub record MatchRecord : Type 0 where
  pub user_a : ℕ
  pub user_b : ℕ

-- `block_cache` holds a set with the sentinel: `some []` is the sentinel alone.
pub record Store : Type 0 where
  pub entry : ℕ → Option Entry
  pub queue : Shard → ZSet
  pub active_shards : List Shard
  pub user_match : ℕ → Option ℕ
  pub match_of : ℕ → Option MatchRecord
  pub match_lock : ℕ → Option ℕ
  pub recent : ℕ → ZSet
  pub skip_marker : ℕ → Bool
  pub block_cache : ℕ → Option (List ℕ)

abbrev pub at_shard : {A : Type 0} → (Shard → A) → Shard → A → Shard → A
at_shard f k v j = if shard_eq j k then v else f j

-- SET with NX: whether the key was free, and the keys after it.
abbrev pub set_nx : (ℕ → Option ℕ) → ℕ → ℕ → Bool × (ℕ → Option ℕ)
set_nx f k v = if is_some (f k) then (false, f) else (true, at_key f k (some v))

abbrev pub holds : Option ℕ → ℕ → Bool
holds none v = false
holds (some w) v = w == v

-- RELEASE_LOCK_SCRIPT: DEL if the key still has that value.
abbrev pub release_if : (ℕ → Option ℕ) → ℕ → ℕ → ℕ → Option ℕ
release_if f k v = if holds (f k) v then at_key f k none else f
