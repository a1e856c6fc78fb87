-- ===== src/Queue/Indexed.antt =====
-- What the queue keys keep between calls: a snapshot stands under the key of its own user, who is in
-- the queue of the shard that the snapshot names and in the global one.
use trip2world.Prelude.{
  ℕ, zero, suc, ◌≡◌, refl, sym, ap, ◌∙◌, subst, ◌≢◌, ◌↔◌, ◌⊎◌, inl, inr, false, Option, none, some,
  List, [], ◌∷◌, arith, ◌==◌, Bool-cases, get_elem?, any, In, includes, Text, at_key, In-includes,
}
use trip2world.Queue.Commands.{
  joins, leaves, reads_entries, prunes_queues, drops_entry, snapshot_expires, entry_corrupted, Scan,
  Queueing, perform, perform_all, QueueCall, remove_at, is_rejoin, rejoins, prune_by, unscanned,
}
use trip2world.Matching.Scan.{shard_eq_sound, shard_eq_refl}
use trip2world.Queue.Sets.{members, In-members-zadd, In-members-zrem, In-members-zrem_all}
use trip2world.Queue.Repository.{
  join, leave, enqueue, dequeue, enqueue_both, parse_entries, zrem_stale, sort_entry, prune,
}
use trip2world.Matching.Types.{QueueCandidate}
use trip2world.Queue.Store.{Store, ZSet, json, corrupt, Entry}
use trip2world.Matching.Shards.{Shard, shard_for, global, add_shards}

abbrev pub InQueue : (Shard → ZSet) → Shard → ℕ → Type 0
InQueue q sh u = In u (members (q sh))

abbrev pub Placed : (Shard → ZSet) → ℕ → QueueCandidate → Type 0
Placed q u c = (c.user_id ≡ u) × InQueue q (shard_for c.country_of) u × InQueue q global u

unfoldable pub Indexed : Store → Type 0
Indexed s = (u : ℕ) (c : QueueCandidate) → s.entry u ≡ some (json c) → Placed s.queue u c

In-enqueue :
    (sh : Shard) (score v : ℕ) (q : Shard → ZSet) (t : Shard) (u : ℕ)
    → InQueue (enqueue sh score v q) t u ↔ (((u ≡ v) × (t ≡ sh)) ⊎ InQueue q t u)
unfolding enqueue
In-enqueue sh score v q t u =
    ground (arith, In-members-zadd u score v (q sh), shard_eq_sound t sh, shard_eq_refl t)

In-dequeue :
    (sh : Shard) (v : ℕ) (q : Shard → ZSet) (t : Shard) (u : ℕ)
    → u ≢ v
    → InQueue q t u
    → InQueue (dequeue sh v q) t u
unfolding dequeue
In-dequeue sh v q t u other h = ground (arith, In-members-zrem u v (q sh), shard_eq_sound t sh)

In-enqueue_both :
    (c : QueueCandidate) (q : Shard → ZSet) (t : Shard) (u : ℕ)
    → InQueue (enqueue_both c q) t u
      ↔ (((u ≡ c.user_id) × ((t ≡ shard_for c.country_of) ⊎ (t ≡ global))) ⊎ InQueue q t u)
unfolding enqueue_both
In-enqueue_both c q t u = ground (
  arith,
  In-enqueue (shard_for c.country_of) c.queued_at c.user_id q t u,
  In-enqueue global c.queued_at c.user_id (enqueue (shard_for c.country_of) c.queued_at c.user_id q)
      t u,
  shard_eq_sound (shard_for c.country_of) global,
)

join-Indexed : (c : QueueCandidate) (s : Store) → Indexed s → Indexed (join c s)
unfolding Indexed join
join-Indexed c s inv u d h = ground (
  arith,
  inv u d,
  In-enqueue_both c s.queue (shard_for d.country_of) u,
  In-enqueue_both c s.queue global u,
)

leave-Indexed : (v : ℕ) (co : Option Text) (s : Store) → Indexed s → Indexed (leave v co s)
unfolding Indexed leave
leave-Indexed v co s inv u d h = ground (arith, inv u d, kept (shard_for d.country_of), kept global)
  where
    kept :
        (t : Shard)
        → u ≢ v
        → InQueue s.queue t u
        → InQueue (dequeue global v (dequeue (shard_for co) v s.queue)) t u
    kept t other q =
        In-dequeue global v _ t u other (In-dequeue (shard_for co) v s.queue t u other q)

In-sort_entry :
    (raw : Option Entry) (id : ℕ) (rest : List QueueCandidate × List ℕ) (a : ℕ)
    → In a (sort_entry raw id rest).1
    → (((a ≡ id) × ((c : QueueCandidate) → raw ≢ some (json c))) ⊎ In a rest.1)
unfolding sort_entry
In-sort_entry none id rest a (inl e) = inl (e, λ c h. ground arith)
In-sort_entry none id rest a (inr h) = inr h
In-sort_entry (some corrupt) id rest a (inl e) = inl (e, λ c h. ground arith)
In-sort_entry (some corrupt) id rest a (inr h) = inr h
In-sort_entry (some (json d)) id rest a h = inr h

In-stale :
    (raws : ℕ → Option Entry) (ids : List ℕ) (a : ℕ) (c : QueueCandidate)
    → raws a ≡ some (json c)
    → ¬ (In a (parse_entries raws ids).1)
unfolding parse_entries
In-stale raws [] a c e h = absurd h
In-stale raws (id ∷ ids) a c e h = elim (In-sort_entry (raws id) id _ a h) [
  | inl (same, stale) ↦ stale c (ap raws (sym same) ∙ e)
  | inr later ↦ In-stale raws ids a c e later
]

In-zrem_stale :
    (stale : List ℕ) (shards : List Shard) (q : Shard → ZSet) (t : Shard) (u : ℕ)
    → ¬ (In u stale)
    → InQueue q t u
    → InQueue (zrem_stale stale shards q) t u
unfolding zrem_stale
In-zrem_stale stale [] q t u fresh h = h
In-zrem_stale stale (sh ∷ shards) q t u fresh h =
    In-zrem_stale stale shards _ t u fresh
      (ground (arith, In-members-zrem_all u stale (q sh), shard_eq_sound t sh))

-- The ids that the scans under way have found stale have no snapshot.
unfoldable Gone : List Scan → (ℕ → Option Entry) → Type 0
Gone scans raws =
    (scan : Scan) (u : ℕ) (c : QueueCandidate)
    → In scan scans
    → In u scan.stale_ids
    → raws u ≢ some (json c)

prune-Indexed :
    (shards : List Shard) (stale : List ℕ) (s : Store)
    → ((u : ℕ) (c : QueueCandidate) → In u stale → s.entry u ≢ some (json c))
    → Indexed s
    → Indexed (prune shards stale s)
unfolding Indexed
prune-Indexed shards stale s gone inv u d h =
    ((inv u d h).0, kept (shard_for d.country_of) (inv u d h).1, kept global (inv u d h).2)
  where
    kept : (t : Shard) → InQueue s.queue t u → InQueue (prune shards stale s).queue t u
    kept t q = In-zrem_stale stale (add_shards [] shards) s.queue t u (λ i. gone u d i h) q

In-get_elem? : (i : ℕ) (xs : List Scan) (x : Scan) → get_elem? xs i ≡ some x → In x xs
In-get_elem? i [] x e = absurd (ground (arith, e))
In-get_elem? zero (y ∷ xs) x e = inl (ground (arith, e))
In-get_elem? (suc i) (y ∷ xs) x e = inr (In-get_elem? i xs x e)

In-remove_at : (i : ℕ) (xs : List Scan) (x : Scan) → In x (remove_at xs i) → In x xs
In-remove_at i [] x h = h
In-remove_at zero (y ∷ xs) x h = inr h
In-remove_at (suc i) (y ∷ xs) x (inl e) = inl e
In-remove_at (suc i) (y ∷ xs) x (inr h) = inr (In-remove_at i xs x h)

entry_gone-Indexed :
    (raw : Option Entry) (v : ℕ) (s : Store)
    → ((c : QueueCandidate) → raw ≢ some (json c))
    → Indexed s
    → Indexed (record s { entry = at_key s.entry v raw })
unfolding Indexed
entry_gone-Indexed raw v s gone inv u d h = ground (arith, inv u d, gone d)

abbrev Kept : Queueing → Type 0
Kept q = Indexed q.store × Gone q.scans q.store.entry

rejoin_found :
    (u : ℕ) (scans : List Scan) (scan : Scan)
    → any (λ x. includes x.stale_ids u) scans ≡ false
    → In scan scans
    → ¬ (In u scan.stale_ids)
rejoin_found u [] scan e h i = h
rejoin_found u (x ∷ scans) scan e (inl same) i =
    let listed = In-includes u x.stale_ids (subst (λ y. In u (Scan.stale_ids y)) same i) in
    absurd (ground (arith, e, listed))
rejoin_found u (x ∷ scans) scan e (inr h) i = rejoin_found u scans scan (ground (arith, e)) h i

join-Gone :
    (c : QueueCandidate) (q : Queueing)
    → is_rejoin (joins c) q.scans ≡ false
    → Gone q.scans q.store.entry
    → Gone q.scans (join c q.store).entry
unfolding Gone join
join-Gone c q fresh gone scan u d h i e = elim (Bool-cases (u == c.user_id)) [
  | inl same ↦
      let own : u ≡ c.user_id = ground (arith, same) in
      rejoin_found c.user_id q.scans scan fresh h (subst (λ v. In v scan.stale_ids) own i)
  | inr other ↦ gone scan u d h i (ground (arith, e, other))
]

less-Gone :
    (scans : List Scan) (raws : ℕ → Option Entry) (v : ℕ) (raw : Option Entry)
    → ((c : QueueCandidate) → raw ≢ some (json c))
    → Gone scans raws
    → Gone scans (at_key raws v raw)
unfolding Gone
less-Gone scans raws v raw none_left gone scan u d h i e =
    ground (arith, e, none_left d, gone scan u d h i)

perform-Kept :
    (call : QueueCall) (q : Queueing)
    → is_rejoin call q.scans ≡ false
    → Kept q
    → Kept (perform call q)
unfolding perform leave Gone
perform-Kept (joins c) q fresh (inv, gone) = (join-Indexed c q.store inv, join-Gone c q fresh gone)
perform-Kept (leaves u co) q fresh (inv, gone) = (
  leave-Indexed u co q.store inv,
  less-Gone q.scans q.store.entry u none (λ c h. ground (arith, h)) gone,
)
perform-Kept (reads_entries shards ids) q fresh (inv, gone) = (inv, found)
  where
    found : Gone (perform (reads_entries shards ids) q).scans q.store.entry
    found scan u c (inl same) i e =
        In-stale q.store.entry ids u c e (subst (λ y. In u (Scan.stale_ids y)) same i)
    found scan u c (inr h) i e = gone scan u c h i e
perform-Kept (prunes_queues i) q fresh (inv, gone) = (pruned (get_elem? q.scans i) refl, fewer)
  where
    pruned : (o : Option Scan) → get_elem? q.scans i ≡ o → Indexed (prune_by o q.store)
    pruned none e = inv
    pruned (some scan) e =
        prune-Indexed scan.scan_shards scan.stale_ids q.store
          (λ u c h. gone scan u c (In-get_elem? i q.scans scan e) h) inv

    fewer : Gone (remove_at q.scans i) (prune_by (get_elem? q.scans i) q.store).entry
    fewer scan u c h j e =
        gone scan u c (In-remove_at i q.scans scan h) j
          (ap (λ raws. raws u) (sym (same_entries (get_elem? q.scans i))) ∙ e)
      where
        same_entries : (o : Option Scan) → (prune_by o q.store).entry ≡ q.store.entry
        same_entries none = refl
        same_entries (some x) = refl
perform-Kept (drops_entry u) q fresh (inv, gone) = (
  entry_gone-Indexed none u q.store (λ c h. ground arith) inv,
  less-Gone q.scans q.store.entry u none (λ c h. ground (arith, h)) gone,
)
perform-Kept (snapshot_expires u) q fresh (inv, gone) = (
  entry_gone-Indexed none u q.store (λ c h. ground arith) inv,
  less-Gone q.scans q.store.entry u none (λ c h. ground (arith, h)) gone,
)
perform-Kept (entry_corrupted u) q fresh (inv, gone) = (
  entry_gone-Indexed (some corrupt) u q.store (λ c h. ground arith) inv,
  less-Gone q.scans q.store.entry u (some corrupt) (λ c h. ground (arith, h)) gone,
)

all-Kept :
    (calls : List QueueCall) (q : Queueing)
    → rejoins calls q ≡ false
    → Kept q
    → Kept (perform_all calls q)
unfolding perform_all rejoins
all-Kept [] q fresh kept = kept
all-Kept (call ∷ calls) q fresh kept =
    all-Kept calls (perform call q) (ground (arith, fresh))
      (perform-Kept call q (ground (arith, fresh)) kept)

-- However users join and leave, snapshots are lost, damaged or dropped, and scans read entries and prune
-- the queues, with any commands of others in between, every snapshot that is left stands under its own
-- user's key, and that user is in the queue of the snapshot's shard and in the global one.
-- Assumed: that held at the start, where no scan was under way; and nobody joins whom a scan under way
-- has found stale and has not yet pruned.
pub perform_all-Indexed :
    (calls : List QueueCall) (s : Store)
    → Indexed s
    → rejoins calls (unscanned s) ≡ false
    → Indexed (perform_all calls (unscanned s)).store
unfolding Gone
perform_all-Indexed calls s inv fresh = (all-Kept calls (unscanned s) fresh (inv, quiet)).0
  where
    quiet : Gone [] s.entry
    quiet scan u c h i e = h
