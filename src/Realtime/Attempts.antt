-- ===== src/Realtime/Attempts.antt =====
-- `attemptMatch` and the rooms: a match that is made has its room before the turn is over.
use trip2world.Prelude.{
  ℕ, ◌-◌, ◌≤◌, ◌≡◌, refl, sym, ap, ◌∙◌, subst, ◌≢◌, inl, inr, Bool, true, ◌&&◌, Option, none, some,
  [], ◌∷◌, arith, ◌==◌, Bool-cases, includes,
}
use trip2world.Pairing.Progress.{alone, finished_of, remaining}
use trip2world.Pairing.Commit.{finished, result_of, locking_first, Phase}
use trip2world.Queue.Store.{MatchRecord}
use trip2world.Queue.Repository.{save_match, current_match}
use trip2world.Realtime.Hub.{Hub}
use trip2world.Pairing.Prepare.{Settings, Tick, prepare_keeps, prepare}
use trip2world.Realtime.Matches.{
  announce_match, on_store, work_job, attempt_match, announce_result, try_match, result_in,
}
use trip2world.Pairing.Types.{MatchResult, Job, World}
use trip2world.Realtime.Housed.{Housed, same-Housed, Unused}
use trip2world.Pairing.Occupancy.{occupied, claims}
use trip2world.Pairing.Alone.{alone_keeps, Returns}

abbrev saved_room : MatchResult → Hub → Hub
saved_room r h = on_store (save_match r.match_id r.seeker_side.side_id r.partner_side.side_id) h

announce_saves :
    (exists : ℕ → Bool) (r : MatchResult) (h : Hub) → (announce_match exists r h).1 ≡ saved_room r h
unfolding announce_match
announce_saves exists r h =
    elim (Bool-cases (exists r.seeker_side.side_id && exists r.partner_side.side_id)) [
      | inl both ↦ rw both refl
      | inr missing ↦ rw missing refl
    ]

module _ (j : Job) (exists : ℕ → Bool) (g : Hub) (w : World) where
  abbrev Others : Type 0
  Others = (u m : ℕ) → m ≢ j.new_match_id → occupied w u ≡ some m → occupied g.world u ≡ some m

  -- The room of a user who was in another match.
  old_room :
      Housed g
      → w.redis.match_of ≡ g.world.redis.match_of
      → Others
      → (u m : ℕ) → m ≢ j.new_match_id
      → occupied w u ≡ some m
      → (p : MatchRecord) × (w.redis.match_of m ≡ some p)
        × (includes (p.user_a ∷ p.user_b ∷ []) u ≡ true)
  unfolding Housed
  old_room inv rooms others u m other e =
      let (p, f, i) = inv u m (others u m other e) in (p, ap (λ x. x m) rooms ∙ f, i)

  none-Housed :
      Housed g
      → w.redis.match_of ≡ g.world.redis.match_of
      → Others
      → ((u : ℕ) → occupied w u ≢ some j.new_match_id)
      → Housed (record g { world = w })
  unfolding Housed
  none-Housed inv rooms others free u m e = elim (Bool-cases (m == j.new_match_id)) [
    | inl same ↦ absurd (free u (e ∙ ap some (ground (arith, same))))
    | inr apart ↦ old_room inv rooms others u m (λ f. ground (arith, apart, f)) e
  ]

  saved-Housed :
      Housed g
      → w.redis.match_of ≡ g.world.redis.match_of
      → Others
      → ((u : ℕ)
          → occupied w u ≡ some j.new_match_id
          → includes (j.seeker_id ∷ j.partner_id ∷ []) u ≡ true)
      → Housed (saved_room (result_of j) (record g { world = w }))
  unfolding Housed save_match current_match
  saved-Housed inv rooms others mine u m e = elim (Bool-cases (m == j.new_match_id)) [
    | inl same ↦ (
      record { user_a = j.seeker_id; user_b = j.partner_id },
      rw same refl,
      mine u (e ∙ ap some (ground (arith, same))),
    )
    | inr apart ↦
        let (p, f, i) = old_room inv rooms others u m (λ x. ground (arith, apart, x)) e in
        (p, rw apart f, i)
  ]

  settled :
      (r : Option MatchResult)
      → Housed g
      → w.redis.match_of ≡ g.world.redis.match_of
      → Others
      → Returns j (finished r)
      → ((u : ℕ) → occupied w u ≡ some j.new_match_id → claims j (finished r) u ≡ true)
      → Housed (announce_result exists r (record g { world = w })).1.1
  settled none inv rooms others returns mine =
      none-Housed inv rooms others (λ u e. ground (arith, mine u e))
  settled (some q) inv rooms others (inl e) mine = absurd (ground (arith, e))
  settled (some q) inv rooms others (inr e) mine =
      let same : q ≡ result_of j = ground (arith, e) in
      let housed : Housed (saved_room (result_of j) (record g { world = w })) =
        saved-Housed inv rooms others (λ u f. ground (arith, mine u f)) in
      subst Housed (sym (announce_saves exists q (record g { world = w }))) (rw same housed)

-- Nobody is occupied by a match that has no room.
unoccupied :
    (t : Tick) (g : Hub) (j : Job) (u : ℕ)
    → j.new_match_id ≡ t.fresh_match_id
    → Unused t g
    → Housed g
    → occupied g.world u ≢ some j.new_match_id
unfolding Housed
unoccupied t g j u drawn unused inv e =
    let (p, f, i) = inv u j.new_match_id e in
    let g : some p ≡ none = sym f ∙ ap g.world.redis.match_of drawn ∙ unused in ground (arith, g)

module _ (cfg : Settings) (t : Tick) (db_up : Bool) (exists : ℕ → Bool) where
  ended : (ph : Phase) → remaining ph ≤ remaining locking_first - 16 → remaining ph ≡ 0
  ended ph left = omega (arith, left)

  job-Housed :
      (o : Option Job) (g : Hub)
      → ((j : Job) → o ≡ some j → j.new_match_id ≡ t.fresh_match_id)
      → Unused t g
      → Housed g
      → let r = work_job o t.tick_now db_up g.world in
        Housed (announce_result exists r.0 (record g { world = r.1 })).1.1
  unfolding work_job
  job-Housed none g drawn unused inv = inv
  job-Housed (some j) g drawn unused inv =
      let run = alone 16 j t.tick_now db_up locking_first g.world in
      let (returns, mine, others, rooms, left) =
        alone_keeps j t.tick_now db_up 16 locking_first g.world tt
          (λ u e. absurd (unoccupied t g j u (drawn j refl) unused inv e)) in
      let (r, e) = finished_of run.0 (ended run.0 left) in
      subst (λ ph. Housed (announce_result exists (result_in ph) (record g { world = run.1 })).1.1)
        (sym e)
        (settled j exists g run.1 r inv rooms others (subst (Returns j) e returns)
          (λ u f. subst (λ ph. claims j ph u ≡ true) e (mine u f)))

  -- A turn of the matchmaker for a user keeps the rooms of all.
  pub attempt-Housed :
      (u : ℕ) (h : Hub) → Unused t h → Housed h → Housed (attempt_match cfg t db_up exists u h).1.1
  unfolding attempt_match try_match
  attempt-Housed u h unused inv =
      let (users, rooms, _, drawn) = prepare_keeps cfg t u h.world.redis in
      let scanned : Hub = on_store (λ x. (prepare cfg t u h.world.redis).1) h in
      job-Housed (prepare cfg t u h.world.redis).0 scanned drawn
        (ap (λ x. x t.fresh_match_id) rooms ∙ unused) (same-Housed scanned h (users, rooms) inv)
