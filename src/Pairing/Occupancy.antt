-- ===== src/Pairing/Occupancy.antt =====
-- Occupancy under interleaved commits: what a worker's claims come to, and that no user is in the
-- matches of two workers.
-- What a worker has claimed by its phase.
use trip2world.Queue.Repository.{
  current_match, claim_for_match, release_match, leave, record_recent_partner, join,
}
use trip2world.Pairing.Types.{Job, World, MatchResult}
use trip2world.Pairing.Commit.{
  Phase, releasing_first, work, releasing_second, finished, acquire, release_one, claiming_partner,
  rolling_back, leaving_seeker, leaving_partner, persisting, recording_seeker, recording_partner,
  works, lock_expires, occupancy_ends, user_joins, user_leaves, System, Action, act, act_all,
  locking_first,
}
use trip2world.Prelude.{
  ℕ, ◌≡◌, ◌≢◌, ◌↔◌, Bool, true, false, ◌&&◌, ◌||◌, Option, some, arith, ◌==◌, is_some, List, not,
  none, ◌∷◌, Bool-cases, inl, inr, sym, [], ==_refl,
}

abbrev seeker_claimed : Phase → Bool
seeker_claimed claiming_partner = true
seeker_claimed rolling_back = true
seeker_claimed leaving_seeker = true
seeker_claimed leaving_partner = true
seeker_claimed persisting = true
seeker_claimed recording_seeker = true
seeker_claimed recording_partner = true
seeker_claimed (releasing_first r) = is_some r
seeker_claimed (releasing_second r) = is_some r
seeker_claimed (finished r) = is_some r
seeker_claimed _ = false

abbrev partner_claimed : Phase → Bool
partner_claimed claiming_partner = false
partner_claimed rolling_back = false
partner_claimed ph = seeker_claimed ph

abbrev pub claims : Job → Phase → ℕ → Bool
claims j ph u = (u == j.seeker_id && seeker_claimed ph) || (u == j.partner_id && partner_claimed ph)

abbrev pub occupied : World → ℕ → Option ℕ
occupied w u = current_match u w.redis

module _ (j : Job) (now : ℕ) (db_up : Bool) (w : World) (u : ℕ) where
  abbrev after_work : Phase → Option ℕ
  after_work ph = occupied (work j now db_up ph w).1 u

  pub work-claims :
      (ph : Phase)
      → (occupied w u ≡ some j.new_match_id → claims j ph u ≡ true)
      → after_work ph ≡ some j.new_match_id
      → claims j (work j now db_up ph w).0 u ≡ true
  unfolding work current_match claim_for_match release_match leave record_recent_partner acquire
      release_one
  work-claims ph inv h = ground arith

  pub work-others :
      (ph : Phase) (m : ℕ) → m ≢ j.new_match_id → (after_work ph ≡ some m) ↔ (occupied w u ≡ some m)
  unfolding work current_match claim_for_match release_match leave record_recent_partner acquire
      release_one
  work-others ph m other = ground arith

  work-keeps :
      (ph : Phase)
      → (claims j ph u ≡ true → occupied w u ≡ some j.new_match_id)
      → (claims j ph j.seeker_id ≡ true → occupied w j.seeker_id ≡ some j.new_match_id)
      → (claims j ph j.partner_id ≡ true → occupied w j.partner_id ≡ some j.new_match_id)
      → claims j (work j now db_up ph w).0 u ≡ true
      → after_work ph ≡ some j.new_match_id
  unfolding work current_match claim_for_match release_match leave record_recent_partner acquire
      release_one
  work-keeps ph inv inv_seeker inv_partner h = ground arith

-- The ids of new matches differ, as random UUIDs do.
abbrev pub Distinct : (ℕ → ℕ) → Type 0
Distinct id = (i k : ℕ) → i ≢ k → id i ≢ id k

-- No worker has sent a command, and nobody is in a match that is still to come.
unfoldable pub Start : (ℕ → Job) → System → Type 0
Start jobs y =
    ((i : ℕ) → y.phase i ≡ locking_first)
    × ((i u : ℕ) → occupied y.world u ≢ some (jobs i).new_match_id)
    × ((i u : ℕ) → y.world.redis.match_lock u ≢ some (jobs i).lock_token)

-- Whether an action ends no occupancy of a match.
abbrev spares : ℕ → Action → Bool
spares m (occupancy_ends u n) = not (n == m)
spares m _ = true

abbrev pub all_spare : ℕ → List Action → Bool
all_spare m [] = true
all_spare m (a ∷ actions) = spares m a && all_spare m actions

module _ (jobs : ℕ → Job) (distinct : Distinct (λ i. (jobs i).new_match_id)) where
  Own : System → Type 0
  Own y =
      (i u : ℕ)
      → occupied y.world u ≡ some (jobs i).new_match_id
      → claims (jobs i) (y.phase i) u ≡ true

  Held : ℕ → System → Type 0
  Held i y =
      (u : ℕ)
      → claims (jobs i) (y.phase i) u ≡ true
      → occupied y.world u ≡ some (jobs i).new_match_id

  -- A command of one worker leaves the match of another.
  unmoved :
      (k i now : ℕ) (db_up : Bool) (y : System) (u : ℕ)
      → i ≢ k
      → (occupied (work (jobs k) now db_up (y.phase k) y.world).1 u ≡ some (jobs i).new_match_id)
        ↔ (occupied y.world u ≡ some (jobs i).new_match_id)
  unmoved k i now db_up y u apart =
      work-others (jobs k) now db_up y.world u (y.phase k) (jobs i).new_match_id
        (distinct i k apart)

  act-Own : (a : Action) (y : System) → Own y → Own (act jobs a y)
  unfolding Own act current_match release_match leave join
  act-Own (works k now db_up) y inv i u = elim (Bool-cases (i == k)) [
    | inl same ↦
        let e : i ≡ k = ground arith in
        rw (e, ==_refl k) (work-claims (jobs k) now db_up y.world u (y.phase k) (inv k u))
    | inr other ↦
        let apart : i ≢ k = λ e. ground arith in
        rw other (λ h. inv i u ((unmoved k i now db_up y u apart).0 h))
  ]
  act-Own (lock_expires v) y inv i u = λ h. inv i u h
  act-Own (occupancy_ends v m) y inv i u = λ h. ground (arith, inv i u)
  act-Own (user_joins c) y inv i u = λ h. inv i u h
  act-Own (user_leaves v co) y inv i u = λ h. inv i u h

  act-Held :
      (i : ℕ) (a : Action) (y : System)
      → spares (jobs i).new_match_id a ≡ true
      → Held i y
      → Held i (act jobs a y)
  unfolding Held act current_match release_match leave join
  act-Held i (works k now db_up) y ok inv u = elim (Bool-cases (i == k)) [
    | inl same ↦
        let e : i ≡ k = ground arith in
        rw (sym e, ==_refl i)
          (work-keeps (jobs i) now db_up y.world u (y.phase i) (inv u) (inv (jobs i).seeker_id)
            (inv (jobs i).partner_id))
    | inr other ↦
        let apart : i ≢ k = λ e. ground arith in
        rw other (λ h. (unmoved k i now db_up y u apart).1 (inv u h))
  ]
  act-Held i (lock_expires v) y ok inv u = λ h. inv u h
  act-Held i (occupancy_ends v m) y ok inv u = λ h. ground (arith, inv u)
  act-Held i (user_joins c) y ok inv u = λ h. inv u h
  act-Held i (user_leaves v co) y ok inv u = λ h. inv u h

  act_all-Own : (actions : List Action) (y : System) → Own y → Own (act_all jobs actions y)
  unfolding act_all
  act_all-Own [] y inv = inv
  act_all-Own (a ∷ actions) y inv = act_all-Own actions (act jobs a y) (act-Own a y inv)

  act_all-Held :
      (i : ℕ) (actions : List Action) (y : System)
      → all_spare (jobs i).new_match_id actions ≡ true
      → Held i y
      → Held i (act_all jobs actions y)
  unfolding act_all
  act_all-Held i [] y ok inv = inv
  act_all-Held i (a ∷ actions) y ok inv =
      act_all-Held i actions (act jobs a y) (ground arith) (act-Held i a y (ground arith) inv)

  -- Commits of any number of workers, in any interleaving and with locks that expire at any time: a
  -- worker that returns no match leaves no user in the match that it began.
  -- Assumed: the workers start together, the ids of their matches differ, and nobody is in one yet.
  pub nothing_left :
      (actions : List Action) (y : System) (i u : ℕ)
      → Start jobs y
      → (act_all jobs actions y).phase i ≡ finished none
      → occupied (act_all jobs actions y).world u ≢ some (jobs i).new_match_id
  unfolding Start Own
  nothing_left actions y i u start none_returned h =
      let inv = act_all-Own actions y (λ k v e. absurd (start.1 k v e)) i u h in ground arith

  -- Commits of any number of workers, in any interleaving and with locks that expire at any time: as
  -- long as no occupancy of its match ends, a worker that returns a match has both users in it.
  -- Assumed: the workers start together, the ids of their matches differ, and nobody is in one yet.
  pub both_occupied :
      (actions : List Action) (y : System) (i : ℕ) (r : MatchResult)
      → Start jobs y
      → all_spare (jobs i).new_match_id actions ≡ true
      → (act_all jobs actions y).phase i ≡ finished (some r)
      → (occupied (act_all jobs actions y).world (jobs i).seeker_id ≡ some (jobs i).new_match_id)
        × (occupied (act_all jobs actions y).world (jobs i).partner_id ≡ some (jobs i).new_match_id)
  unfolding Start Held
  both_occupied actions y i r start ok returned =
      let inv = act_all-Held i actions y ok (λ v e. ground (arith, start.0 i)) in
      (inv (jobs i).seeker_id (ground arith), inv (jobs i).partner_id (ground arith))

  -- Commits of any number of workers, in any interleaving and with locks that expire at any time: as
  -- long as no occupancy of their matches ends, two workers that return a match have no user in common.
  -- Assumed: the workers start together, the ids of their matches differ, and nobody is in one yet.
  pub no_double_booking :
      (actions : List Action) (y : System) (i k : ℕ) (r q : MatchResult)
      → Start jobs y
      → i ≢ k
      → all_spare (jobs i).new_match_id actions ≡ true
      → all_spare (jobs k).new_match_id actions ≡ true
      → (act_all jobs actions y).phase i ≡ finished (some r)
      → (act_all jobs actions y).phase k ≡ finished (some q)
      → ((jobs i).seeker_id ≢ (jobs k).seeker_id)
        × ((jobs i).seeker_id ≢ (jobs k).partner_id)
        × ((jobs i).partner_id ≢ (jobs k).seeker_id)
        × ((jobs i).partner_id ≢ (jobs k).partner_id)
  no_double_booking actions y i k r q start other ok ok' returned returned' =
      let (a, b) = both_occupied actions y i r start ok returned in
      let (c, d) = both_occupied actions y k q start ok' returned' in
      (
        λ e. distinct i k other (clash _ _ e a c),
        λ e. distinct i k other (clash _ _ e a d),
        λ e. distinct i k other (clash _ _ e b c),
        λ e. distinct i k other (clash _ _ e b d),
      )
    where
      clash :
          (u v : ℕ)
          → u ≡ v
          → occupied (act_all jobs actions y).world u ≡ some (jobs i).new_match_id
          → occupied (act_all jobs actions y).world v ≡ some (jobs k).new_match_id
          → (jobs i).new_match_id ≡ (jobs k).new_match_id
      clash u v e h g = cc
