-- ===== src/Pairing/Progress.antt =====
-- How many commands a worker has left, and a worker that meets no other.
use trip2world.Prelude.{
  ℕ, zero, suc, ◌+◌, ◌-◌, ◌≤◌, ◌≡◌, refl, sym, subst, ◌≢◌, Bool, true, false, Option, none, some,
  arith, length,
}
use trip2world.Pairing.Locks.{locked}
use trip2world.Queue.Repository.{
  claim_for_match, current_match, is_queued, leave, record_recent_partner,
}
use trip2world.Pairing.Occupancy.{occupied}
use trip2world.Pairing.Types.{Job, World, MatchResult}
use trip2world.Pairing.Commit.{
  Phase, work, verifying, check_passes, acquire, releasing_first, finished, leaving_seeker,
  releasing_second, result_of, claiming_seeker, checks, locking_first, locking_second,
  undoing_first, claiming_partner, rolling_back, leaving_partner, persisting, recording_seeker,
  recording_partner, release_one,
}

-- How many commands a worker has left at most.
abbrev pub remaining : Phase → ℕ
remaining locking_first = 16
remaining locking_second = 15
remaining undoing_first = 1
remaining (verifying cs ok) = 10 + length cs
remaining claiming_seeker = 9
remaining claiming_partner = 8
remaining rolling_back = 3
remaining leaving_seeker = 7
remaining leaving_partner = 6
remaining persisting = 5
remaining recording_seeker = 4
remaining recording_partner = 3
remaining (releasing_first r) = 2
remaining (releasing_second r) = 1
remaining (finished r) = 0

pub work-remaining :
    (j : Job) (now : ℕ) (db_up : Bool) (ph : Phase) (w : World)
    → remaining (work j now db_up ph w).0 ≤ remaining ph - 1
unfolding work
work-remaining j now db_up ph w = ground arith

pub finished_of : (ph : Phase) → remaining ph ≡ 0 → (r : Option MatchResult) × (ph ≡ finished r)
finished_of locking_first h = absurd (omega arith)
finished_of locking_second h = absurd (omega arith)
finished_of undoing_first h = absurd (omega arith)
finished_of (verifying cs ok) h = absurd (omega arith)
finished_of claiming_seeker h = absurd (omega arith)
finished_of claiming_partner h = absurd (omega arith)
finished_of rolling_back h = absurd (omega arith)
finished_of leaving_seeker h = absurd (omega arith)
finished_of leaving_partner h = absurd (omega arith)
finished_of persisting h = absurd (omega arith)
finished_of recording_seeker h = absurd (omega arith)
finished_of recording_partner h = absurd (omega arith)
finished_of (releasing_first r) h = absurd (omega arith)
finished_of (releasing_second r) h = absurd (omega arith)
finished_of (finished r) h = (r, refl)

-- A worker by itself.
unfoldable pub alone : ℕ → Job → ℕ → Bool → Phase → World → Phase × World
alone zero j now db_up ph w = (ph, w)
alone (suc n) j now db_up ph w = let r = work j now db_up ph w in alone n j now db_up r.0 r.1

module _ (j : Job) (now : ℕ) (db_up : Bool) where
  -- The match is returned, both users are occupied by it, and neither is queued or locked.
  abbrev pub Paired : Phase × World → Type 0
  Paired r =
      (r.0 ≡ finished (some (result_of j)))
      × (occupied r.1 j.seeker_id ≡ some j.new_match_id)
      × (occupied r.1 j.partner_id ≡ some j.new_match_id)
      × (is_queued j.seeker_id r.1.redis ≡ false)
      × (is_queued j.partner_id r.1.redis ≡ false)
      × (locked r.1 j.seeker_id ≡ none)
      × (locked r.1 j.partner_id ≡ none)

  abbrev Succeeds : ℕ → Phase → World → Type 0
  Succeeds n ph w = Paired (alone n j now db_up ph w)

  then_alone :
      (n : ℕ) (ph next : Phase) (w : World)
      → (work j now db_up ph w).0 ≡ next
      → Succeeds n next (work j now db_up ph w).1
      → Succeeds (suc n) ph w
  unfolding alone
  then_alone n ph next w e h = subst (λ p. Succeeds n p (work j now db_up ph w).1) (sym e) h

  after_claims :
      (w : World)
      → occupied w j.seeker_id ≡ some j.new_match_id
      → occupied w j.partner_id ≡ some j.new_match_id
      → locked w j.seeker_id ≡ some j.lock_token
      → locked w j.partner_id ≡ some j.lock_token
      → Succeeds 7 leaving_seeker w
  unfolding alone work current_match is_queued leave record_recent_partner release_one
  after_claims w a b c d = ground (arith, a, b, c, d)

  claims_succeed :
      (w : World)
      → j.seeker_id ≢ j.partner_id
      → occupied w j.seeker_id ≡ none
      → occupied w j.partner_id ≡ none
      → locked w j.seeker_id ≡ some j.lock_token
      → locked w j.partner_id ≡ some j.lock_token
      → Succeeds 9 claiming_seeker w
  unfolding work claim_for_match current_match
  claims_succeed w two a b c d = then_alone 8 claiming_seeker claiming_partner w (ground arith) (
      then_alone 7 claiming_partner leaving_seeker _ (ground arith)
        (after_claims _ (ground (arith, two, a, b)) (ground (arith, two, a, b)) c d))

  checks_pass :
      (w : World)
      → j.seeker_id ≢ j.partner_id
      → is_queued j.seeker_id w.redis ≡ true
      → is_queued j.partner_id w.redis ≡ true
      → occupied w j.seeker_id ≡ none
      → occupied w j.partner_id ≡ none
      → locked w j.seeker_id ≡ some j.lock_token
      → locked w j.partner_id ≡ some j.lock_token
      → Succeeds 14 (verifying (checks j) true) w
  unfolding alone work check_passes
  checks_pass w two q p a b c d = rw (q, p, a, b) (claims_succeed w two a b c d)

  -- A worker that meets no other ends, after at most sixteen commands, with a match of its two users: both
  -- are then occupied by it, and neither is queued or locked, even if the database does not answer.
  -- Assumed: they are two, and are queued, free and unlocked at the start.
  pub commit_alone :
      (w : World)
      → j.seeker_id ≢ j.partner_id
      → is_queued j.seeker_id w.redis ≡ true
      → is_queued j.partner_id w.redis ≡ true
      → occupied w j.seeker_id ≡ none
      → occupied w j.partner_id ≡ none
      → locked w j.seeker_id ≡ none
      → locked w j.partner_id ≡ none
      → Paired (alone 16 j now db_up locking_first w)
  unfolding work acquire is_queued current_match
  commit_alone w two q p a b c d = then_alone 15 locking_first locking_second w (ground arith) (
      then_alone 14 locking_second (verifying (checks j) true) _ (ground arith)
        (checks_pass _ two q p a b (ground (arith, two, c, d)) (ground (arith, two, c, d))))
