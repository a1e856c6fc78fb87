-- ===== src/Realtime/Absent.antt =====
-- Who is not in the queue stays out of it until the user's own `queue:join`.
use trip2world.Prelude.{
  ℕ, ◌≡◌, refl, ap, ◌∙◌, Bool, false, not, ◌&&◌, Option, none, some, List, arith, ◌==◌, is_some,
  Text,
}
use trip2world.Pairing.Candidate.{build_candidate}
use trip2world.Pairing.Alone.{alone_entry}
use trip2world.Realtime.Keeping.{limited_keeps, split_keeps}
use trip2world.Realtime.Endings.{teardown_entry}
use trip2world.Pairing.Commit.{on_redis, locking_first}
use trip2world.Realtime.Handlers.{
  read_blocks, queue_join, JoinInput, CandidateRow, join_with, join_row, join_checked, may_stay,
  Standing, restricted_as,
}
use trip2world.Pairing.Types.{MatchEndReason, MatchResult, Job, World}
use trip2world.Pairing.Prepare.{Settings, Tick, prepare, prepare_keeps}
use trip2world.Queue.Repository.{
  leave, get_match_participants, save_match, cache_blocks, current_match, is_queued,
  recent_partners, join, get_cached_blocks,
}
use trip2world.Realtime.Matches.{
  teardown_match, announce_match, on_store, attempt_match, try_match, announce_result, work_job,
}
use trip2world.Realtime.Hub.{Hub, Sender, on_queue_join, allow}
use trip2world.Realtime.Events.{Occurrence, joins}

unfoldable pub Absent : ℕ → Hub → Type 0
Absent u h = h.world.redis.entry u ≡ none

abbrev pub SameEntries : Hub → Hub → Type 0
SameEntries g h = g.world.redis.entry ≡ h.world.redis.entry

-- Whether an occurrence is a `queue:join` of the user.
abbrev pub is_join_of : ℕ → Occurrence → Bool
is_join_of u (joins t standing s payload row) = s.sender_id == u
is_join_of u _ = false

pub same-Absent : (u : ℕ) (g h : Hub) → SameEntries g h → Absent u h → Absent u g
unfolding Absent
same-Absent u g h same e = ap (λ x. x u) same ∙ e

pub teardown-Absent :
    (u : ℕ) (db_up : Bool) (now m : ℕ) (who : Option ℕ) (reason : MatchEndReason) (h : Hub)
    → Absent u h
    → Absent u (teardown_match db_up now m who reason h).1
unfolding teardown_match get_match_participants
teardown-Absent u db_up now m who reason h e =
    same-Absent u _ h (teardown_entry db_up now m who reason (h.world.redis.match_of m) h) e

pub leave-Absent :
    (u v : ℕ) (country : Option Text) (h : Hub)
    → Absent u h
    → Absent u (on_store (leave v country) h)
unfolding Absent leave
leave-Absent u v country h e = ground (arith, e)

announce-Absent :
    (u : ℕ) (exists : ℕ → Bool) (o : Option MatchResult) (h : Hub)
    → Absent u h
    → Absent u (announce_result exists o h).1.1
unfolding Absent announce_match save_match
announce-Absent u exists none h e = e
announce-Absent u exists (some r) h e = ground (arith, e)

module _ (u : ℕ) (cfg : Settings) (db_up : Bool) (exists : ℕ → Bool) where
  pub attempt-Absent :
      (t : Tick) (v : ℕ) (h : Hub)
      → Absent u h
      → Absent u (attempt_match cfg t db_up exists v h).1.1
  unfolding attempt_match try_match work_job Absent
  attempt-Absent t v h e =
      let scan = prepare cfg t v h.world.redis in
      let (_, _, made, _) = prepare_keeps cfg t v h.world.redis in
      let r = work_job scan.0 t.tick_now db_up (on_redis scan.1 h.world) in
      announce-Absent u exists r.0 (record h { world = r.1 })
        (worked scan.0 (on_redis scan.1 h.world) (made u e))
    where
      worked :
          (o : Option Job) (w : World)
          → w.redis.entry u ≡ none
          → (work_job o t.tick_now db_up w).1.redis.entry u ≡ none
      worked none w f = f
      worked (some j) w f = alone_entry j t.tick_now db_up 16 locking_first w u f

  read_blocks_entry : (o : Option (List ℕ)) (v : ℕ) (h : Hub) → SameEntries (read_blocks o v h).1 h
  unfolding read_blocks cache_blocks
  read_blocks_entry none v h = refl
  read_blocks_entry (some ids) v h = refl

  join_with-Absent :
      (t : Tick) (s : Sender) (d : JoinInput) (row : CandidateRow) (h : Hub)
      → (s.sender_id == u) ≡ false
      → Absent u h
      → Absent u (join_with cfg t db_up exists s d row h).1
  unfolding join_with recent_partners join build_candidate Absent
  join_with-Absent t s d row h apart e =
      let entries = read_blocks_entry (get_cached_blocks s.sender_id h.world.redis) s.sender_id h in
      let apart' : (u == s.sender_id) ≡ false = ground (arith, apart) in
      attempt-Absent t s.sender_id _ (rw apart' (ap (λ x. x u) entries ∙ e))

  pub join-Absent :
      (t : Tick) (standing : Standing) (s : Sender) (payload : Option JoinInput)
      (row : Option CandidateRow) (h : Hub)
      → (s.sender_id == u) ≡ false
      → Absent u h
      → Absent u (queue_join cfg t db_up exists standing s payload row h).1
  unfolding queue_join join_checked allow
  join-Absent t standing s payload row h apart e =
      limited_keeps (Absent u) s (allow s on_queue_join 60 60000 h)
        (join_checked cfg t db_up exists standing s payload row) (same-Absent u _ h refl e)
        (checked standing payload (allow s on_queue_join 60 60000 h).1)
    where
      by_row :
          (d : JoinInput) (o : Option CandidateRow) (g : Hub)
          → Absent u g
          → Absent u (join_row cfg t db_up exists s d o g).1
      by_row d none g i = i
      by_row d (some r) g i = join_with-Absent t s d r g apart i

      checked :
          (st : Standing) (o : Option JoinInput) (g : Hub)
          → Absent u g
          → Absent u (join_checked cfg t db_up exists st s o row g).1
      checked st none g i = i
      checked (restricted_as is_banned) (some d) g i = i
      checked may_stay (some d) g i =
          split_keeps (Absent u) (is_some (current_match s.sender_id g.world.redis)) _ _ i (
            split_keeps (Absent u) (not d.has_camera && not d.has_microphone) _ _ i (
              split_keeps (Absent u) (is_queued s.sender_id g.world.redis) _ _ i
                (by_row d row g i)))
