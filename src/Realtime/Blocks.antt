-- ===== src/Realtime/Blocks.antt =====
-- A block keeps both users apart from then on: the next snapshot of either excludes the other.
use trip2world.Queue.Store.{MatchRecord}
use trip2world.Queue.Sets.{In-unique_from}
use trip2world.Queue.Repository.{
  get_cached_blocks, invalidate_blocks, release_match, delete_match, get_match_participants,
}
use trip2world.Pairing.Ending.{end_match, release_all}
use trip2world.Realtime.Matches.{teardown_found, teardown_match}
use trip2world.Pairing.Types.{blocked, MatchEndReason}
use trip2world.Prelude.{
  ℕ, ◌≡◌, refl, sym, ap, ◌∙◌, subst, ◌≢◌, inl, inr, Bool, true, false, Option, none, some, List, [],
  ◌∷◌, ◌++◌, arith, ◌==◌, Bool-cases, any, In,
}
use trip2world.Realtime.Hub.{BlockRow, Hub, Sender}
use trip2world.Realtime.Handlers.{block_sides, other_side, read_blocks, get_blocked_user_ids}
use trip2world.Realtime.Safety.{
  upsert_block, is_block, end_named, user_block, put_block, BlockInput,
}

module _ (a b : ℕ) where
  In-sides_left : (xs ys : List ℕ) (n : ℕ) → In n xs → In n (xs ++ ys)
  In-sides_left [] ys n h = absurd h
  In-sides_left (x ∷ xs) ys n h = ground (arith, In-sides_left xs ys n)

  In-sides_right : (xs ys : List ℕ) (n : ℕ) → In n ys → In n (xs ++ ys)
  In-sides_right [] ys n h = h
  In-sides_right (x ∷ xs) ys n h = inr (In-sides_right xs ys n h)

  sides_has :
      (rows : List BlockRow)
      → any (is_block a b) rows ≡ true
      → a ≢ b
      → In b (block_sides a rows) × In a (block_sides b rows)
  unfolding block_sides
  sides_has [] h two = absurd (ground (arith, h))
  sides_has (r ∷ rows) h two = elim (Bool-cases (is_block a b r)) [
    | inl hit ↦ (
      In-sides_left (other_side a r) (block_sides a rows) b (ground (arith, hit, two)),
      In-sides_left (other_side b r) (block_sides b rows) a (ground (arith, hit, two)),
    )
    | inr miss ↦
        let (x, y) = sides_has rows (ground (arith, h, miss)) two in
        (
          In-sides_right (other_side a r) (block_sides a rows) b x,
          In-sides_right (other_side b r) (block_sides b rows) a y,
        )
  ]

  upserted : (rows : List BlockRow) → any (is_block a b) (upsert_block a b rows) ≡ true
  unfolding upsert_block
  upserted rows = elim (Bool-cases (any (is_block a b) rows)) [
    | inl hit ↦ rw hit hit
    | inr miss ↦ rw miss (ground arith)
  ]

-- An end of a match leaves the blocks and the caches of them.
abbrev SameBlocks : Hub → Hub → Type 0
SameBlocks h h' = (h'.blocks ≡ h.blocks) × (h'.world.redis.block_cache ≡ h.world.redis.block_cache)

teardown-blocks :
    (db_up : Bool) (now m : ℕ) (who : Option ℕ) (reason : MatchEndReason) (p : Option MatchRecord)
    (h : Hub)
    → SameBlocks h (teardown_found db_up now m who reason p h).1
unfolding teardown_found end_match release_all release_match delete_match
teardown-blocks db_up now m who reason none h = (refl, refl)
teardown-blocks db_up now m who reason (some p) h = (refl, refl)

end_named-blocks :
    (db_up : Bool) (s : Sender) (m : Option ℕ) (reason : MatchEndReason) (h : Hub)
    → SameBlocks h (end_named db_up s m reason h).1
unfolding end_named teardown_match
end_named-blocks db_up s none reason h = (refl, refl)
end_named-blocks db_up s (some m) reason h =
    teardown-blocks db_up s.at_time m (some s.sender_id) reason
      (get_match_participants m h.world.redis) h

abbrev pub Excludes : ℕ → ℕ → Hub → Type 0
Excludes a b h = In b (read_blocks (get_cached_blocks a h.world.redis) a h).0

Excludes-fresh :
    (a b : ℕ) (h : Hub)
    → h.world.redis.block_cache a ≡ none
    → In b (block_sides a h.blocks)
    → Excludes a b h
unfolding read_blocks get_cached_blocks get_blocked_user_ids
Excludes-fresh a b h e i =
    rw e ((In-unique_from b [] (block_sides a h.blocks)).1 (i, λ none_seen. none_seen))

-- A block that is not of oneself, whether or not it ends a match, keeps both apart: the excluded users
-- of the next snapshot of either, read through the cache or not, hold the other.
pub user_block-Excludes :
    (db_up : Bool) (s : Sender) (d : BlockInput) (h : Hub)
    → d.block_target ≢ s.sender_id
    → Excludes s.sender_id d.block_target (user_block db_up s (some d) h).1
      × Excludes d.block_target s.sender_id (user_block db_up s (some d) h).1
unfolding user_block put_block invalidate_blocks
user_block-Excludes db_up s d h two =
    let a = s.sender_id in
    let b = d.block_target in
    let other : (b == a) ≡ false = ground (arith, two) in
    let (rows_eq, cache_eq) = end_named-blocks db_up s d.block_match blocked (put_block a b h) in
    let (x, y) =
      sides_has a b (upsert_block a b h.blocks) (upserted a b h.blocks) (λ e. two (sym e)) in
    let h' = (end_named db_up s d.block_match blocked (put_block a b h)).1 in
    rw other (
      Excludes-fresh a b h' (ap (λ c. c a) cache_eq ∙ ground arith)
          (subst (λ rows. In b (block_sides a rows)) (sym rows_eq) x),
      Excludes-fresh b a h' (ap (λ c. c b) cache_eq ∙ ground arith)
          (subst (λ rows. In a (block_sides b rows)) (sym rows_eq) y),
    )
