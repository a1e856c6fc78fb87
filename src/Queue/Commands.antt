-- ===== src/Queue/Commands.antt =====
-- The commands that the calls of QueueRepository (apps/realtime/src/queue.repository.ts) send, in any
-- order: each MULTI is one step, while a scan reads the entries in one step and prunes the queues in
-- another.
use trip2world.Queue.Repository.{join, prune, leave, parse_entries}
use trip2world.Matching.Types.{QueueCandidate}
use trip2world.Queue.Store.{Store, Entry, corrupt}
use trip2world.Matching.Shards.{Shard}
use trip2world.Prelude.{
  ℕ, zero, suc, Bool, false, ◌||◌, Option, none, some, List, [], ◌∷◌, get_elem?, any, includes,
  Text, at_key,
}

-- A scan that has read its entries and has still to prune: its shards, and the ids that it found stale.
pub record Scan : Type 0 where
  pub scan_shards : List Shard
  pub stale_ids : List ℕ

-- The store, and the scans under way.
pub record Queueing : Type 0 where
  pub store : Store
  pub scans : List Scan

abbrev pub unscanned : Store → Queueing
unscanned s = record { store = s; scans = [] }

-- The commands of the servers, and the TTL of a snapshot. What the ZRANGEs of a scan have found, some
-- time before its MGET, may be any ids; and the DEL of getEntry, sent after a GET that read a corrupt
-- entry, may come at any time.
pub data QueueCall : Type 0 where
  joins : QueueCandidate → QueueCall
  leaves : ℕ → Option Text → QueueCall
  reads_entries : List Shard → List ℕ → QueueCall
  prunes_queues : ℕ → QueueCall
  drops_entry : ℕ → QueueCall
  snapshot_expires : ℕ → QueueCall
  entry_corrupted : ℕ → QueueCall

abbrev pub remove_at : List Scan → ℕ → List Scan
remove_at [] i = []
remove_at (x ∷ xs) zero = xs
remove_at (x ∷ xs) (suc i) = x ∷ remove_at xs i

abbrev pub prune_by : Option Scan → Store → Store
prune_by none s = s
prune_by (some scan) s = prune scan.scan_shards scan.stale_ids s

abbrev on_entry : ℕ → Option Entry → Queueing → Queueing
on_entry u raw q = record q { store = record (q.store) { entry = at_key q.store.entry u raw } }

unfoldable pub perform : QueueCall → Queueing → Queueing
perform (joins c) q = record q { store = join c q.store }
perform (leaves u country_of) q = record q { store = leave u country_of q.store }
perform (reads_entries shards ids) q = record q {
  scans =
      record { scan_shards = shards; stale_ids = (parse_entries q.store.entry ids).1 } ∷ q.scans;
}
perform (prunes_queues i) q = record {
  store = prune_by (get_elem? q.scans i) q.store;
  scans = remove_at q.scans i;
}
perform (drops_entry u) q = on_entry u none q
perform (snapshot_expires u) q = on_entry u none q
perform (entry_corrupted u) q = on_entry u (some corrupt) q

unfoldable pub perform_all : List QueueCall → Queueing → Queueing
perform_all [] q = q
perform_all (call ∷ calls) q = perform_all calls (perform call q)

-- Whether a call is the join of a user whom a scan under way has found stale.
abbrev pub is_rejoin : QueueCall → List Scan → Bool
is_rejoin (joins c) scans = any (λ scan. includes scan.stale_ids c.user_id) scans
is_rejoin _ scans = false

unfoldable pub rejoins : List QueueCall → Queueing → Bool
rejoins [] q = false
rejoins (call ∷ calls) q = is_rejoin call q.scans || rejoins calls (perform call q)
