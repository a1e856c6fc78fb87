-- ===== src/Pairing/Alone.antt =====
-- `tryMatch` by itself: what its sixteen turns leave of the matches of the users.
use trip2world.Queue.Repository.{claim_for_match, release_match, leave, record_recent_partner}
use trip2world.Pairing.Progress.{alone, remaining, work-remaining}
use trip2world.Pairing.Types.{Job, World}
use trip2world.Prelude.{
  ℕ, zero, suc, ◌-◌, ◌≤◌, ◌≡◌, refl, ◌∙◌, ◌≢◌, ◌⊎◌, Bool, true, none, some, arith,
}
use trip2world.Pairing.Commit.{
  releasing_first, releasing_second, finished, Phase, work, result_of, acquire, release_one,
}
use trip2world.Pairing.Occupancy.{claims, occupied, work-claims, work-others}

-- What a worker returns when it has chosen: nothing, or its own match.
abbrev pub Returns : Job → Phase → Type 0
Returns j (releasing_first r) = (r ≡ none) ⊎ (r ≡ some (result_of j))
Returns j (releasing_second r) = (r ≡ none) ⊎ (r ≡ some (result_of j))
Returns j (finished r) = (r ≡ none) ⊎ (r ≡ some (result_of j))
Returns j _ = Unit

module _ (j : Job) (now : ℕ) (db_up : Bool) where
  work-Returns : (ph : Phase) (w : World) → Returns j ph → Returns j (work j now db_up ph w).0
  unfolding work
  work-Returns ph w h = ground arith

  work_rooms :
      (ph : Phase) (w : World) → (work j now db_up ph w).1.redis.match_of ≡ w.redis.match_of
  unfolding work claim_for_match release_match leave record_recent_partner acquire release_one
  work_rooms ph w = ground arith

  -- The turns of a worker, from any phase: what held of the claims holds after them.
  pub alone_keeps :
      (n : ℕ) (ph : Phase) (w : World)
      → Returns j ph
      → ((u : ℕ) → occupied w u ≡ some j.new_match_id → claims j ph u ≡ true)
      → let r = alone n j now db_up ph w in
        Returns j r.0
        × ((u : ℕ) → occupied r.1 u ≡ some j.new_match_id → claims j r.0 u ≡ true)
        × ((u m : ℕ) → m ≢ j.new_match_id → occupied r.1 u ≡ some m → occupied w u ≡ some m)
        × (r.1.redis.match_of ≡ w.redis.match_of)
        × (remaining r.0 ≤ remaining ph - n)
  unfolding alone
  alone_keeps zero ph w returns inv = (returns, inv, λ u m other e. e, refl, omega arith)
  alone_keeps (suc n) ph w returns inv =
      let next = work j now db_up ph w in
      let (returns', inv', others, rooms, left) =
        alone_keeps n next.0 next.1 (work-Returns ph w returns)
          (λ u h. work-claims j now db_up w u ph (inv u) h) in
      (
        returns',
        inv',
        λ u m other e. (work-others j now db_up w u ph m other).0 (others u m other e),
        rooms ∙ work_rooms ph w,
        omega (arith, left, work-remaining j now db_up ph w),
      )

  work_entry :
      (ph : Phase) (w : World) (v : ℕ)
      → w.redis.entry v ≡ none
      → (work j now db_up ph w).1.redis.entry v ≡ none
  unfolding work claim_for_match release_match leave record_recent_partner acquire release_one
  work_entry ph w v e = ground arith

  -- A worker makes no snapshot.
  pub alone_entry :
      (n : ℕ) (ph : Phase) (w : World) (v : ℕ)
      → w.redis.entry v ≡ none
      → (alone n j now db_up ph w).1.redis.entry v ≡ none
  unfolding alone
  alone_entry zero ph w v e = e
  alone_entry (suc n) ph w v e =
      alone_entry n (work j now db_up ph w).0 (work j now db_up ph w).1 v (work_entry ph w v e)
