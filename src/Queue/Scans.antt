-- ===== src/Queue/Scans.antt =====
-- What a scan finds: loadCandidates on the shards of shardsToScan.
use trip2world.Matching.Scan.{shard_eq_sound, scan_covers, includes_shard-add_shards}
use trip2world.Queue.Indexed.{Indexed}
use trip2world.Queue.Store.{Entry, ZSet, corrupt, json, Store}
use trip2world.Matching.Shards.{Shard, includes_shard, global, shards_to_scan, add_shards}
use trip2world.Matching.Types.{QueueCandidate, RelaxationStage}
use trip2world.Queue.Repository.{
  scan_ids, scanned, sort_entry, parse_entries, load_candidates, size, scan_limit,
}
use trip2world.Queue.Sets.{zrange, members, unique_from, In-unique_from}
use trip2world.Prelude.{
  ℕ, zero, suc, ◌≤◌, ◌≡◌, refl, sym, ap, ◌∙◌, ◌≢◌, ◌↔◌, ◌⊎◌, inl, inr, true, not, Option, none,
  some, List, [], ◌∷◌, ◌++◌, arith, ◌==◌, length, In, In-filter, In-filter_of,
}

-- A range that is long enough is the whole set.
take_members : (n : ℕ) (z : ZSet) → length z ≤ n → zrange n z ≡ members z
unfolding zrange members
take_members zero [] h = refl
take_members (suc n) [] h = refl
take_members zero (e ∷ z) h = absurd (omega arith)
take_members (suc n) (e ∷ z) h = ap (λ r. e.1 ∷ r) (take_members n z (omega arith))

In-append : (a : ℕ) (xs ys : List ℕ) → (In a (xs ++ ys)) ↔ (In a xs ⊎ In a ys)
In-append a [] ys = ground arith
In-append a (x ∷ xs) ys = ground (arith, In-append a xs ys)

In-scan_ids :
    (q : Shard → ZSet) (shards : List Shard) (sh : Shard) (a : ℕ)
    → includes_shard shards sh ≡ true
    → In a (zrange scan_limit (q sh))
    → In a (scan_ids q shards)
unfolding scan_ids
In-scan_ids q [] sh a e h = absurd (ground arith)
In-scan_ids q (t ∷ shards) sh a e h = ground (
  arith,
  In-append a (zrange scan_limit (q t)) (scan_ids q shards),
  In-scan_ids q shards sh a,
  shard_eq_sound sh t,
)

In-scanned :
    (q : Shard → ZSet) (shards : List Shard) (exclude : ℕ) (sh : Shard) (a : ℕ)
    → includes_shard shards sh ≡ true
    → In a (zrange scan_limit (q sh))
    → a ≢ exclude
    → In a (scanned q shards exclude)
unfolding scanned
In-scanned q shards exclude sh a e h other = In-filter_of _ a _ found (ground arith)
  where
    found : In a (unique_from [] (scan_ids q (add_shards [] shards)))
    found = ground (
      arith,
      In-unique_from a [] (scan_ids q (add_shards [] shards)),
      In-scan_ids q (add_shards [] shards) sh a (includes_shard-add_shards [] shards sh ∙ e) h,
    )

sort_entry_keeps :
    (raw : Option Entry) (id : ℕ) (rest : List QueueCandidate × List ℕ) (c : QueueCandidate)
    → (In c (sort_entry raw id rest).0) ↔ ((raw ≡ some (json c)) ⊎ In c rest.0)
unfolding sort_entry
sort_entry_keeps none id rest c = ground arith
sort_entry_keeps (some corrupt) id rest c = ground arith
sort_entry_keeps (some (json d)) id rest c = ground arith

In-parsed :
    (raws : ℕ → Option Entry) (ids : List ℕ) (a : ℕ) (c : QueueCandidate)
    → raws a ≡ some (json c)
    → In a ids
    → In c (parse_entries raws ids).0
unfolding parse_entries
In-parsed raws [] a c e h = absurd h
In-parsed raws (id ∷ ids) a c e (inl same) =
    (sort_entry_keeps (raws id) id _ c).1 (inl (ap raws (sym same) ∙ e))
In-parsed raws (id ∷ ids) a c e (inr h) =
    (sort_entry_keeps (raws id) id _ c).1 (inr (In-parsed raws ids a c e h))

parsed_from :
    (raws : ℕ → Option Entry) (ids : List ℕ) (c : QueueCandidate)
    → In c (parse_entries raws ids).0
    → (a : ℕ) × In a ids × (raws a ≡ some (json c))
unfolding parse_entries
parsed_from raws [] c h = absurd h
parsed_from raws (id ∷ ids) c h = elim ((sort_entry_keeps (raws id) id _ c).0 h) [
  | inl e ↦ (id, inl refl, e)
  | inr later ↦ let (a, member, e) = parsed_from raws ids c later in (a, inr member, e)
]

module _ (seeker : QueueCandidate) (stage : ℕ) (stages : List RelaxationStage) (s : Store) where
  -- At every stage of relaxation, as long as the global queue holds at most SCAN_LIMIT members, a
  -- scan loads the snapshot of every queued user other than the excluded one, whatever the countries.
  -- Assumed: every snapshot is under its own user's key and in its queues.
  pub load_candidates_complete :
      (exclude u : ℕ) (c : QueueCandidate)
      → Indexed s
      → size global s ≤ scan_limit
      → u ≢ exclude
      → s.entry u ≡ some (json c)
      → In c (load_candidates (shards_to_scan seeker stage stages) exclude s).0
  unfolding load_candidates Indexed size
  load_candidates_complete exclude u c inv small other e = In-parsed s.entry _ u c e (
      In-scanned s.queue _ exclude global u (includes_global)
        (rw (take_members scan_limit (s.queue global) small) (inv u c e).2) other)
    where
      includes_global : includes_shard (shards_to_scan seeker stage stages) global ≡ true
      includes_global = (scan_covers seeker stage stages []).0

-- A scan of any shards loads only snapshots that stand in the store, each under the id that it names,
-- and never one of the excluded user.
-- Assumed: every snapshot is under its own user's key and in its queues.
pub load_candidates_sound :
    (s : Store) (shards : List Shard) (exclude : ℕ) (c : QueueCandidate)
    → Indexed s
    → In c (load_candidates shards exclude s).0
    → (s.entry c.user_id ≡ some (json c)) × (c.user_id ≢ exclude)
unfolding load_candidates Indexed scanned
load_candidates_sound s shards exclude c inv h =
    let (a, member, e) = parsed_from s.entry _ c h in
    let kept = In-filter (λ id. not (id == exclude)) a _ member in
    (ap s.entry (inv a c e).0 ∙ e, ground (arith, kept, inv a c e))
