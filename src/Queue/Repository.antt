-- ===== src/Queue/Repository.antt =====
-- QueueRepository of apps/realtime/src/queue.repository.ts: the methods on the queue, occupancy, the
-- match registry, recent partners, the skip marker and the block cache.
use trip2world.Queue.Sets.{zrange, unique_from, members, zadd, zrem, zrem_all}
use trip2world.Queue.Store.{
  Store, Entry, ZSet, MatchRecord, at_shard, json, corrupt, set_nx, release_if,
}
use trip2world.Matching.Types.{QueueCandidate}
use trip2world.Matching.Shards.{Shard, shard_for, add_shards, shard_eq, global}
use trip2world.Prelude.{
  ℕ, suc, ◌+◌, ◌*◌, Bool, true, not, Option, none, some, List, [], ◌∷◌, ◌++◌, ltb, leb, ◌==◌,
  if◌then◌else◌, is_some, length, filter, Text, at_key,
}

-- SCAN_LIMIT
abbrev pub scan_limit : ℕ
scan_limit = 250

-- ZADD to a shard's queue.
unfoldable pub enqueue : Shard → ℕ → ℕ → (Shard → ZSet) → Shard → ZSet
enqueue s score u q = at_shard q s (zadd score u (q s))

unfoldable pub dequeue : Shard → ℕ → (Shard → ZSet) → Shard → ZSet
dequeue s u q = at_shard q s (zrem u (q s))

-- Indexed by shard, and in the global shard too.
unfoldable pub enqueue_both : QueueCandidate → (Shard → ZSet) → Shard → ZSet
enqueue_both c q =
    let regional = enqueue (shard_for c.country_of) c.queued_at c.user_id q in
    if not (shard_eq (shard_for c.country_of) global)
    then enqueue global c.queued_at c.user_id regional
    else regional

unfoldable pub join : QueueCandidate → Store → Store
join c s = record s {
  entry = at_key s.entry c.user_id (some (json c));
  queue = enqueue_both c s.queue;
  active_shards = add_shards s.active_shards (shard_for c.country_of ∷ global ∷ []);
}

unfoldable pub leave : ℕ → Option Text → Store → Store
leave u country_of s = record s {
  entry = at_key s.entry u none;
  queue = dequeue global u (dequeue (shard_for country_of) u s.queue);
}

unfoldable pub is_queued : ℕ → Store → Bool
is_queued u s = is_some (s.entry u)

-- The snapshot, and the store with a corrupt one dropped. The GET and the DEL are two commands; here
-- nothing comes between them.
unfoldable pub read_entry : Option Entry → ℕ → Store → Option QueueCandidate × Store
read_entry none u s = (none, s)
read_entry (some (json c)) u s = (some c, s)
read_entry (some corrupt) u s = (none, record s { entry = at_key s.entry u none })

unfoldable pub get_entry : ℕ → Store → Option QueueCandidate × Store
unfolding read_entry
get_entry u s = read_entry (s.entry u) u s

-- One entry of MGET in front of those after it: a snapshot that parses, or a stale id.
unfoldable pub sort_entry :
    Option Entry → ℕ → List QueueCandidate × List ℕ → List QueueCandidate × List ℕ
sort_entry none id (parsed, stale) = (parsed, id ∷ stale)
sort_entry (some corrupt) id (parsed, stale) = (parsed, id ∷ stale)
sort_entry (some (json c)) id (parsed, stale) = (c ∷ parsed, stale)

unfoldable pub parse_entries : (ℕ → Option Entry) → List ℕ → List QueueCandidate × List ℕ
parse_entries raws [] = ([], [])
parse_entries raws (id ∷ ids) = sort_entry (raws id) id (parse_entries raws ids)

-- `idLists.flat()`
unfoldable pub scan_ids : (Shard → ZSet) → List Shard → List ℕ
scan_ids q [] = []
scan_ids q (sh ∷ shards) = zrange scan_limit (q sh) ++ scan_ids q shards

unfoldable pub zrem_stale : List ℕ → List Shard → (Shard → ZSet) → Shard → ZSet
zrem_stale stale [] q = q
zrem_stale stale (sh ∷ shards) q = zrem_stale stale shards (at_shard q sh (zrem_all stale (q sh)))

-- The distinct ids of the scan, the excluded one left out.
unfoldable pub scanned : (Shard → ZSet) → List Shard → ℕ → List ℕ
scanned q shards exclude =
    filter (λ id. not (id == exclude)) (unique_from [] (scan_ids q (add_shards [] shards)))

-- The ZREMs of a scan, in one MULTI.
abbrev pub prune : List Shard → List ℕ → Store → Store
prune shards stale s = record s { queue = zrem_stale stale (add_shards [] shards) s.queue }

-- A scan with nothing between its commands. With other commands in between, `reads_entries` and
-- `prunes_queues` of Queue.Commands are its MGET and its MULTI.
unfoldable pub load_candidates : List Shard → ℕ → Store → List QueueCandidate × Store
load_candidates shards exclude s =
    let found = parse_entries s.entry (scanned s.queue shards exclude) in
    (found.0, prune shards found.1 s)

unfoldable pub size : Shard → Store → ℕ
size shard s = length (s.queue shard)

abbrev next_rank : Option ℕ → Option ℕ
next_rank none = none
next_rank (some n) = some (suc n)

-- ZRANK.
zrank : ℕ → ZSet → Option ℕ
zrank u [] = none
zrank u ((t, v) ∷ z) = let rest = zrank u z in if v == u then some 0 else next_rank rest

unfoldable pub position : ℕ → Option Text → Store → Option ℕ
unfolding zrank
position u country_of s = next_rank (zrank u (s.queue (shard_for country_of)))

unfoldable pub current_match : ℕ → Store → Option ℕ
current_match u s = s.user_match u

unfoldable pub claim_for_match : ℕ → ℕ → Store → Bool × Store
claim_for_match u m s = let r = set_nx s.user_match u m in (r.0, record s { user_match = r.1 })

unfoldable pub release_match : ℕ → ℕ → Store → Store
release_match u m s = record s { user_match = release_if s.user_match u m }

unfoldable pub save_match : ℕ → ℕ → ℕ → Store → Store
save_match m a b s = record s {
  match_of = at_key s.match_of m (some (record { user_a = a; user_b = b }));
}

unfoldable pub get_match_participants : ℕ → Store → Option MatchRecord
get_match_participants m s = s.match_of m

unfoldable pub peer_in : Option MatchRecord → ℕ → Option ℕ
peer_in none u = none
peer_in (some p) u =
    if p.user_a == u then some p.user_b else (if p.user_b == u then some p.user_a else none)

unfoldable pub resolve_peer : ℕ → ℕ → Store → Option ℕ
unfolding peer_in
resolve_peer m u s = peer_in (get_match_participants m s) u

unfoldable pub delete_match : ℕ → Store → Store
delete_match m s = record s { match_of = at_key s.match_of m none }

-- ZREMRANGEBYSCORE key 0 now.
unfoldable pub trim_expired : ℕ → ZSet → ZSet
trim_expired now z = filter (λ e. ltb now e.0) z

unfoldable pub record_recent_partner : ℕ → ℕ → ℕ → ℕ → Store → Store
record_recent_partner now u partner ttl_seconds s = record s {
  recent =
      at_key s.recent u (trim_expired now (zadd (now + ttl_seconds * 1000) partner (s.recent u)));
}

unfoldable pub recent_partners : ℕ → ℕ → Store → List ℕ × Store
recent_partners now u s =
    let live = trim_expired now (s.recent u) in
    (members live, record s { recent = at_key s.recent u live })

-- `ttl` is what Redis answers for a marker that is there; -1 and -2 are 0 after the test.
unfoldable pub check_skip_cooldown : ℕ → ℕ → ℕ → Store → ℕ × Store
check_skip_cooldown ttl u min_seconds s =
    if leb min_seconds 0
    then (0, s)
    else (if s.skip_marker u
        then (ttl, s)
        else (0, record s { skip_marker = at_key s.skip_marker u true }))

unfoldable pub cache_blocks : ℕ → List ℕ → Store → Store
cache_blocks u blocked s = record s { block_cache = at_key s.block_cache u (some blocked) }

unfoldable pub get_cached_blocks : ℕ → Store → Option (List ℕ)
get_cached_blocks u s = s.block_cache u

unfoldable pub invalidate_blocks : ℕ → Store → Store
invalidate_blocks u s = record s { block_cache = at_key s.block_cache u none }
