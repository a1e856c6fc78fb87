-- ===== src/Queue/Tests.antt =====
-- The theorems about the queue at two users, one in Portugal and one in Brazil.
use trip2world.Prelude.{ℕ, ◌≡◌, refl, false, none, some, List, [], ◌∷◌, arith, Text, codes, text_eq}
use trip2world.Queue.Sets.{zadd, zinsert, zrem, zrem_all}
use trip2world.Matching.Shards.{
  global, shard_for, to_upper_case, lookup_region, region_by_country, add_shards, add_shard,
}
use trip2world.Queue.Repository.{
  join, size, enqueue_both, enqueue, zrem_stale, leave, parse_entries, sort_entry,
}
use trip2world.Queue.Indexed.{Indexed, perform_all-Indexed}
use trip2world.Queue.Commands.{
  QueueCall, perform_all, joins, perform, snapshot_expires, reads_entries, leaves, prunes_queues,
  rejoins, unscanned,
}
use trip2world.Queue.Store.{Store, json}
use trip2world.Matching.Types.{QueueCandidate, any_gender}

abbrev waiting : ℕ → ℕ → Text → QueueCandidate
waiting id since where_from = record {
  user_id = id;
  queued_at = since;
  gender_of = none;
  country_of = some where_from;
  languages = [];
  age_bracket_of = none;
  interest_ids = [];
  preferred_gender = any_gender;
  preferred_countries = [];
  preferred_languages = [];
  preferred_age_brackets = [];
  excluded_user_ids = [];
  recent_partner_ids = [];
  priority = 0;
}

abbrev empty : Store
empty = record {
  entry = λ u. none;
  queue = λ sh. [];
  active_shards = [];
  user_match = λ u. none;
  match_of = λ m. none;
  match_lock = λ u. none;
  recent = λ u. [];
  skip_marker = λ u. false;
  block_cache = λ u. none;
}

empty-Indexed : Indexed empty
unfolding Indexed
empty-Indexed u c h = absurd (ground arith)

abbrev ana : QueueCandidate
ana = waiting 1 1000 (codes "PT")

abbrev bia : QueueCandidate
bia = waiting 2 2000 (codes "br")

-- While a scan of the global queue has user 1, whose snapshot has expired, still to prune, user 2 leaves
-- and joins.
abbrev calls : List QueueCall
calls =
    joins ana
    ∷ joins bia
    ∷ snapshot_expires 1
    ∷ reads_entries (global ∷ []) (1 ∷ 2 ∷ [])
    ∷ leaves 2 (some (codes "br"))
    ∷ joins bia
    ∷ prunes_queues 0
    ∷ []

perform_all-Indexed_example : Indexed (perform_all calls (unscanned empty)).store
unfolding rejoins perform join leave parse_entries sort_entry
perform_all-Indexed_example = perform_all-Indexed calls empty empty-Indexed refl

-- User 1 joins again in between: the snapshot stays, and its place in the global queue is pruned.
lost_place :
    let after =
      (perform_all
        (joins ana
          ∷ snapshot_expires 1
          ∷ reads_entries (global ∷ []) (1 ∷ [])
          ∷ joins ana
          ∷ prunes_queues 0
          ∷ [])
        (unscanned empty)).store in
    (after.entry 1 ≡ some (json ana)) × (size global after ≡ 0)
unfolding perform_all perform join parse_entries sort_entry size zrem_stale zrem_all zrem
    enqueue_both enqueue zadd zinsert shard_for to_upper_case lookup_region region_by_country
    text_eq add_shards add_shard
lost_place = (refl, refl)

abbrev two : Store
two = join bia (join ana empty)

two-Indexed : Indexed two
unfolding perform_all perform rejoins
two-Indexed = perform_all-Indexed (joins ana ∷ joins bia ∷ []) empty empty-Indexed refl

two_waiting : size global two ≡ 2
unfolding size join enqueue_both enqueue zadd zinsert zrem shard_for to_upper_case lookup_region
    region_by_country text_eq
two_waiting = refl

two_entry : two.entry 2 ≡ some (json bia)
unfolding join
two_entry = refl
