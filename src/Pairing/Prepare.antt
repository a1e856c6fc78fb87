-- ===== src/Pairing/Prepare.antt =====
-- The first part of `tryMatch`: from the seeker's snapshot to the partner that it chooses. The values
-- that it makes up, the lock token and the match id, and the node are arguments.
use trip2world.Queue.Scans.{load_candidates_sound, load_candidates_complete}
use trip2world.Queue.Indexed.{Indexed}
use trip2world.Matching.Stages.{relaxation_stage_for}
use trip2world.Matching.Best.{Legal, select_best, select_sound}
use trip2world.Pairing.Types.{Job}
use trip2world.Matching.Shards.{Shard, shards_to_scan, global}
use trip2world.Queue.Repository.{
  get_entry, recent_partners, read_entry, load_candidates, current_match, size, scan_limit,
}
use trip2world.Queue.Store.{Store, json, Entry, corrupt}
use trip2world.Matching.Select.{SelectOptions, MatchSelection, select_best_match, selection}
use trip2world.Matching.Types.{RelaxationStage, QueueCandidate}
use trip2world.Prelude.{
  ℕ, ◌≤◌, ◌≡◌, refl, sym, ap, ◌∙◌, ◌≢◌, inl, inr, Option, none, some, List, [], ◌∷◌, arith,
  if◌then◌else◌, Option-cases, is_some, In,
}

pub record Settings : Type 0 where
  pub relaxation_stages : List RelaxationStage
  pub skip_cooldown_seconds : ℕ

pub record Tick : Type 0 where
  pub tick_now : ℕ
  pub token : ℕ
  pub fresh_match_id : ℕ
  pub tick_node : ℕ

abbrev pub options_of : Settings → Tick → SelectOptions
options_of cfg t = record {
  now = t.tick_now;
  stages = cfg.relaxation_stages;
  occupied_user_ids = [];
}

-- The seeker with the partners that it has met since it joined.
abbrev pub with_recent : Tick → Store → QueueCandidate → ℕ → QueueCandidate
with_recent t s seeker u = record seeker { recent_partner_ids = (recent_partners t.tick_now u s).0 }

abbrev pub scan_shards : Settings → Tick → QueueCandidate → List Shard
scan_shards cfg t seeker =
    shards_to_scan seeker (relaxation_stage_for seeker t.tick_now cfg.relaxation_stages)
      cfg.relaxation_stages

abbrev pub job_of : Settings → Tick → ℕ → QueueCandidate → MatchSelection → Job
job_of cfg t u seeker m = record {
  seeker_id = u;
  partner_id = m.candidate.user_id;
  seeker_country = seeker.country_of;
  partner_country = m.candidate.country_of;
  shared_interest_ids = m.shared_interest_ids;
  job_seeker_stage = m.seeker_stage;
  job_candidate_stage = m.candidate_stage;
  lock_token = t.token;
  new_match_id = t.fresh_match_id;
  cooldown_seconds = cfg.skip_cooldown_seconds;
  on_node = t.tick_node;
}

abbrev job_from : Settings → Tick → ℕ → QueueCandidate → Option MatchSelection → Option Job
job_from cfg t u seeker none = none
job_from cfg t u seeker (some m) = some (job_of cfg t u seeker m)

-- The chosen partner of a pool, if there is one; an empty pool ends the call before the read of the
-- recent partners.
choose : Settings → Tick → ℕ → QueueCandidate → List QueueCandidate → Store → Option Job × Store
choose cfg t u seeker [] s = (none, s)
choose cfg t u seeker (c ∷ pool) s = (
  job_from cfg t u seeker
      (select_best_match (with_recent t s seeker u) (c ∷ pool) (options_of cfg t)),
  (recent_partners t.tick_now u s).1,
)

scan_for : Settings → Tick → ℕ → Option QueueCandidate → Store → Option Job × Store
unfolding choose
scan_for cfg t u none s = (none, s)
scan_for cfg t u (some seeker) s =
    let loaded = load_candidates (scan_shards cfg t seeker) u s in
    if is_some (current_match u s) then (none, s) else choose cfg t u seeker loaded.0 loaded.1

unfoldable pub prepare : Settings → Tick → ℕ → Store → Option Job × Store
unfolding scan_for
prepare cfg t u s = let snapshot = get_entry u s in scan_for cfg t u snapshot.0 snapshot.1

module _ (cfg : Settings) (t : Tick) (u : ℕ) where
  choose_keeps :
      (s : Store) (seeker : QueueCandidate) (pool : List QueueCandidate)
      → ((choose cfg t u seeker pool s).1.user_match ≡ s.user_match)
        × ((choose cfg t u seeker pool s).1.match_of ≡ s.match_of)
        × ((choose cfg t u seeker pool s).1.entry ≡ s.entry)
        × ((j : Job)
            → (choose cfg t u seeker pool s).0 ≡ some j
            → j.new_match_id ≡ t.fresh_match_id)
  unfolding choose recent_partners
  choose_keeps s seeker [] = (refl, refl, refl, λ j e. absurd (ground (arith, e)))
  choose_keeps s seeker (c ∷ pool) = (
    refl,
    refl,
    refl,
    λ j e.
        by_choice (select_best_match (with_recent t s seeker u) (c ∷ pool) (options_of cfg t)) j e,
  )
    where
      by_choice :
          (o : Option MatchSelection) (j : Job)
          → job_from cfg t u seeker o ≡ some j
          → j.new_match_id ≡ t.fresh_match_id
      by_choice none j e = absurd (ground (arith, e))
      by_choice (some m) j e = ground (arith, e)

  scan_keeps :
      (o : Option Entry) (s : Store)
      → let r = scan_for cfg t u (read_entry o u s).0 (read_entry o u s).1 in
        (r.1.user_match ≡ s.user_match)
        × (r.1.match_of ≡ s.match_of)
        × ((v : ℕ) → s.entry v ≡ none → r.1.entry v ≡ none)
        × ((j : Job) → r.0 ≡ some j → j.new_match_id ≡ t.fresh_match_id)
  unfolding scan_for read_entry load_candidates current_match
  scan_keeps none s = (refl, refl, λ v e. e, λ j e. absurd (ground (arith, e)))
  scan_keeps (some corrupt) s =
      (refl, refl, λ v e. ground (arith, e), λ j e. absurd (ground (arith, e)))
  scan_keeps (some (json seeker)) s = elim (Option-cases (s.user_match u)) [
    | inl free ↦
        let loaded = load_candidates (scan_shards cfg t seeker) u s in
        let (users, rooms, entries, drawn) = choose_keeps loaded.1 seeker loaded.0 in
        rw free (users, rooms, λ v e. ap (λ x. x v) entries ∙ e, drawn)
    | inr (m, busy) ↦ rw busy (refl, refl, λ v e. e, λ j e. absurd (ground (arith, e)))
  ]

  -- The scan changes neither who is occupied nor the rooms and makes no snapshot, and the match that it
  -- would make has the id that was drawn for it.
  pub prepare_keeps :
      (s : Store)
      → ((prepare cfg t u s).1.user_match ≡ s.user_match)
        × ((prepare cfg t u s).1.match_of ≡ s.match_of)
        × ((v : ℕ) → s.entry v ≡ none → (prepare cfg t u s).1.entry v ≡ none)
        × ((j : Job) → (prepare cfg t u s).0 ≡ some j → j.new_match_id ≡ t.fresh_match_id)
  unfolding prepare get_entry
  prepare_keeps s = scan_keeps (s.entry u) s

  -- What a scan of a queued and free user comes to.
  prepare_queued :
      (s : Store) (seeker : QueueCandidate)
      → s.entry u ≡ some (json seeker)
      → current_match u s ≡ none
      → (prepare cfg t u s).0
        ≡ (choose cfg t u seeker
            (load_candidates (scan_shards cfg t seeker) u s).0
            (load_candidates (scan_shards cfg t seeker) u s).1).0
  unfolding prepare scan_for get_entry read_entry
  prepare_queued s seeker e free = rw (e, free) refl

  choose-Legal :
      (s : Store) (seeker c : QueueCandidate) (pool : List QueueCandidate)
      → In c pool
      → Legal (with_recent t s seeker u) (options_of cfg t) c
      → (j : Job) × ((choose cfg t u seeker pool s).0 ≡ some j)
  unfolding choose
  choose-Legal s seeker c [] at legal = absurd at
  choose-Legal s seeker c (d ∷ pool) at legal =
      let (m, e, _) =
        select_best (with_recent t s seeker u) (options_of cfg t) (d ∷ pool) c at legal in
      (job_of cfg t u seeker m, ap (job_from cfg t u seeker) e)

  choose_sound :
      (s : Store) (seeker : QueueCandidate) (pool : List QueueCandidate) (j : Job)
      → (choose cfg t u seeker pool s).0 ≡ some j
      → (c : QueueCandidate) × In c pool
        × Legal (with_recent t s seeker u) (options_of cfg t) c
        × (j ≡ job_of cfg t u seeker (selection (with_recent t s seeker u) (options_of cfg t) c))
  unfolding choose
  choose_sound s seeker [] j h = absurd (ground arith)
  choose_sound s seeker (d ∷ pool) j h =
      elim (Option-cases
        (select_best_match (with_recent t s seeker u) (d ∷ pool) (options_of cfg t))) [
          | inl e ↦ absurd (no_job (sym (ap (job_from cfg t u seeker) e) ∙ h))
          | inr (m, e) ↦
              let (c, at, legal, same) =
                select_sound (with_recent t s seeker u) (options_of cfg t) (d ∷ pool) m e in
              let made : some j ≡ some (job_of cfg t u seeker m) =
                sym h ∙ ap (job_from cfg t u seeker) e in
              (c, at, legal, some_injective made ∙ ap (job_of cfg t u seeker) same)
        ]
    where
      no_job : none ≢ some j
      no_job e = ground arith

      some_injective : {k l : Job} → some k ≡ some l → k ≡ l
      some_injective e = cc

  -- A tick for a queued and free user finds a partner, as long as the global queue holds at most
  -- SCAN_LIMIT members and some other queued user is a legal candidate.
  -- Assumed: every snapshot is under its own user's key and in its queues.
  pub prepare_finds :
      (s : Store) (seeker c : QueueCandidate) (v : ℕ)
      → Indexed s
      → size global s ≤ scan_limit
      → s.entry u ≡ some (json seeker)
      → current_match u s ≡ none
      → v ≢ u
      → s.entry v ≡ some (json c)
      → Legal (with_recent t s seeker u) (options_of cfg t) c
      → (j : Job) × ((prepare cfg t u s).0 ≡ some j)
  unfolding load_candidates recent_partners
  prepare_finds s seeker c v inv small e free other there legal =
      let found =
        load_candidates_complete seeker _ cfg.relaxation_stages s u v c inv small other there in
      let (j, made) =
        choose-Legal (load_candidates (scan_shards cfg t seeker) u s).1 seeker c _ found legal in
      (j, prepare_queued s seeker e free ∙ made)

  -- The partner that a tick finds is a queued user other than the seeker, and a legal candidate for it
  -- with the partners that it has met since it joined.
  -- Assumed: every snapshot is under its own user's key and in its queues, and the user is queued and free.
  pub prepare_sound :
      (s : Store) (seeker : QueueCandidate) (j : Job)
      → Indexed s
      → s.entry u ≡ some (json seeker)
      → current_match u s ≡ none
      → (prepare cfg t u s).0 ≡ some j
      → (j.seeker_id ≡ u)
        × (j.partner_id ≢ u)
        × ((c : QueueCandidate) × (s.entry j.partner_id ≡ some (json c))
            × Legal (with_recent t s seeker u) (options_of cfg t) c)
  unfolding load_candidates selection recent_partners
  prepare_sound s seeker j inv e free h =
      let after : Store = (load_candidates (scan_shards cfg t seeker) u s).1 in
      let (c, at, legal, made) =
        choose_sound after seeker _ j (sym (prepare_queued s seeker e free) ∙ h) in
      let (there, other) = load_candidates_sound s (scan_shards cfg t seeker) u c inv at in
      (rw made refl, rw made other, (c, rw made there, legal))
