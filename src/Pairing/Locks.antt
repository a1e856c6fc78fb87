-- ===== src/Pairing/Locks.antt =====
-- The pairing locks under interleaved commits: they exclude, and none outlives its worker.
use trip2world.Pairing.Occupancy.{Distinct, Start}
use trip2world.Queue.Repository.{claim_for_match, release_match, leave, record_recent_partner, join}
use trip2world.Pairing.Types.{Job, World, MatchResult}
use trip2world.Pairing.Commit.{
  locking_first, locking_second, undoing_first, releasing_second, finished, Phase, first_id, work,
  second_id, acquire, release_one, works, lock_expires, occupancy_ends, user_joins, user_leaves,
  Action, System, act, act_all,
}
use trip2world.Prelude.{
  ℕ, ◌≡◌, ◌≢◌, ◌↔◌, inl, inr, Bool, true, false, ◌&&◌, ◌||◌, Option, some, List, [], ◌∷◌, arith,
  ◌==◌, Bool-cases, ==_refl,
}

-- Which of its two locks a worker has taken by its phase.
abbrev first_taken : Phase → Bool
first_taken locking_first = false
first_taken (releasing_second r) = false
first_taken (finished r) = false
first_taken _ = true

abbrev pub second_taken : Phase → Bool
second_taken locking_first = false
second_taken locking_second = false
second_taken undoing_first = false
second_taken (finished r) = false
second_taken _ = true

abbrev pub locks : Job → Phase → ℕ → Bool
locks j ph u = (u == first_id j && first_taken ph) || (u == second_id j && second_taken ph)

abbrev pub locked : World → ℕ → Option ℕ
locked w u = w.redis.match_lock u

module _ (j : Job) (now : ℕ) (db_up : Bool) (w : World) (u : ℕ) where
  abbrev lock_after : Phase → Option ℕ
  lock_after ph = locked (work j now db_up ph w).1 u

  work-locks :
      (ph : Phase)
      → (locked w u ≡ some j.lock_token → locks j ph u ≡ true)
      → lock_after ph ≡ some j.lock_token
      → locks j (work j now db_up ph w).0 u ≡ true
  unfolding work claim_for_match release_match leave record_recent_partner acquire release_one
  work-locks ph inv h = ground arith

  lock_others :
      (ph : Phase) (t : ℕ) → t ≢ j.lock_token → (lock_after ph ≡ some t) ↔ (locked w u ≡ some t)
  unfolding work claim_for_match release_match leave record_recent_partner acquire release_one
  lock_others ph t other = ground arith

  lock_keeps :
      (ph : Phase)
      → j.seeker_id ≢ j.partner_id
      → (locks j ph u ≡ true → locked w u ≡ some j.lock_token)
      → (locks j ph (first_id j) ≡ true → locked w (first_id j) ≡ some j.lock_token)
      → locks j (work j now db_up ph w).0 u ≡ true
      → lock_after ph ≡ some j.lock_token
  unfolding work claim_for_match release_match leave record_recent_partner acquire release_one
  lock_keeps ph two inv inv_first h = ground arith

-- Whether an action lets no lock run out.
abbrev no_expiry : Action → Bool
no_expiry (lock_expires u) = false
no_expiry _ = true

abbrev pub all_no_expiry : List Action → Bool
all_no_expiry [] = true
all_no_expiry (a ∷ actions) = no_expiry a && all_no_expiry actions

module _ (jobs : ℕ → Job) (distinct : Distinct (λ i. (jobs i).lock_token)) where
  Owned : System → Type 0
  Owned y =
      (i u : ℕ) → locked y.world u ≡ some (jobs i).lock_token → locks (jobs i) (y.phase i) u ≡ true

  Keeps : System → Type 0
  Keeps y =
      (i u : ℕ) → locks (jobs i) (y.phase i) u ≡ true → locked y.world u ≡ some (jobs i).lock_token

  -- A command of one worker leaves the locks of another.
  lock_unmoved :
      (k i now : ℕ) (db_up : Bool) (y : System) (u : ℕ)
      → i ≢ k
      → (locked (work (jobs k) now db_up (y.phase k) y.world).1 u ≡ some (jobs i).lock_token)
        ↔ (locked y.world u ≡ some (jobs i).lock_token)
  lock_unmoved k i now db_up y u apart =
      lock_others (jobs k) now db_up y.world u (y.phase k) (jobs i).lock_token (distinct i k apart)

  act-Owned : (a : Action) (y : System) → Owned y → Owned (act jobs a y)
  unfolding Owned act release_match leave join
  act-Owned (works k now db_up) y inv i u = elim (Bool-cases (i == k)) [
    | inl same ↦
        let e : i ≡ k = ground arith in
        rw (e, ==_refl k) (work-locks (jobs k) now db_up y.world u (y.phase k) (inv k u))
    | inr other ↦
        let apart : i ≢ k = λ e. ground arith in
        rw other (λ h. inv i u ((lock_unmoved k i now db_up y u apart).0 h))
  ]
  act-Owned (lock_expires v) y inv i u = λ h. ground (arith, inv i u)
  act-Owned (occupancy_ends v m) y inv i u = inv i u
  act-Owned (user_joins c) y inv i u = inv i u
  act-Owned (user_leaves v co) y inv i u = inv i u

  act-Keeps :
      ((i : ℕ) → (jobs i).seeker_id ≢ (jobs i).partner_id)
      → (a : Action) (y : System) → no_expiry a ≡ true
      → Keeps y
      → Keeps (act jobs a y)
  unfolding Keeps act release_match leave join
  act-Keeps two (works k now db_up) y ok inv i u = elim (Bool-cases (i == k)) [
    | inl same ↦
        let e : i ≡ k = ground arith in
        rw (e, ==_refl k)
          (lock_keeps (jobs k) now db_up y.world u (y.phase k) (two k) (inv k u)
            (inv k (first_id (jobs k))))
    | inr other ↦
        let apart : i ≢ k = λ e. ground arith in
        rw other (λ h. (lock_unmoved k i now db_up y u apart).1 (inv i u h))
  ]
  act-Keeps two (lock_expires v) y ok inv i u = λ h. absurd (ground arith)
  act-Keeps two (occupancy_ends v m) y ok inv i u = inv i u
  act-Keeps two (user_joins c) y ok inv i u = inv i u
  act-Keeps two (user_leaves v co) y ok inv i u = inv i u

  act_all-Owned : (actions : List Action) (y : System) → Owned y → Owned (act_all jobs actions y)
  unfolding act_all
  act_all-Owned [] y inv = inv
  act_all-Owned (a ∷ actions) y inv = act_all-Owned actions (act jobs a y) (act-Owned a y inv)

  act_all-Keeps :
      ((i : ℕ) → (jobs i).seeker_id ≢ (jobs i).partner_id)
      → (actions : List Action) (y : System) → all_no_expiry actions ≡ true
      → Keeps y
      → Keeps (act_all jobs actions y)
  unfolding act_all
  act_all-Keeps two [] y ok inv = inv
  act_all-Keeps two (a ∷ actions) y ok inv =
      act_all-Keeps two actions (act jobs a y) (ground arith) (act-Keeps two a y (ground arith) inv)

  -- Commits in any interleaving: when a worker has finished, no lock with its token is left, whatever
  -- it returned and whichever locks expired.
  -- Assumed: the workers start together, their lock tokens differ, and no lock has one yet.
  pub locks_released :
      (actions : List Action) (y : System) (i u : ℕ) (r : Option MatchResult)
      → Start jobs y
      → (act_all jobs actions y).phase i ≡ finished r
      → locked (act_all jobs actions y).world u ≢ some (jobs i).lock_token
  unfolding Start Owned
  locks_released actions y i u r start over h =
      let inv = act_all-Owned actions y (λ k v e. absurd (start.2 k v e)) i u h in ground arith

  -- Commits in any interleaving in which no lock expires: two workers that both have their locks work
  -- on no common user, when a worker's seeker is not its partner.
  -- Assumed: the workers start together, their lock tokens differ, and no lock has one yet.
  pub locks_exclude :
      (actions : List Action) (y : System) (i k u : ℕ)
      → Start jobs y
      → ((n : ℕ) → (jobs n).seeker_id ≢ (jobs n).partner_id)
      → all_no_expiry actions ≡ true
      → i ≢ k
      → locks (jobs i) ((act_all jobs actions y).phase i) u ≡ true
      → locks (jobs k) ((act_all jobs actions y).phase k) u ≡ false
  unfolding Start Keeps
  locks_exclude actions y i k u start two ok other mine =
      let kept = act_all-Keeps two actions y ok (λ n v e. absurd (ground (arith, start.0 n))) in
      elim (Bool-cases (locks (jobs k) ((act_all jobs actions y).phase k) u)) [
        | inl theirs ↦ absurd (distinct i k other (same _ _ _ (kept i u mine) (kept k u theirs)))
        | inr free ↦ free
      ]
    where
      same : (o : Option ℕ) (a b : ℕ) → o ≡ some a → o ≡ some b → a ≡ b
      same o a b h g = cc
