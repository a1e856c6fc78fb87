-- ===== src/Matching/Best.antt =====
-- `selectBestMatch` against its specification: the best of the legal candidates.
use trip2world.Prelude.{
  ◌↔◌, Option-cases, ◌∙◌, subst, ap, ℕ, ◌≡◌, refl, sym, ◌⊎◌, inl, inr, true, false, Option, none,
  some, List, [], ◌∷◌, In, arith,
}
use trip2world.Matching.Types.{QueueCandidate}
use trip2world.Matching.Rules.{check_hard_rules}
use trip2world.Matching.Score.{score_pair}
use trip2world.Matching.Select.{
  MatchSelection, SelectOptions, is_better, accepts, selection, consider, select_loop,
  select_best_match,
}
use trip2world.Matching.Order.{is_better-replace, is_better_irrefl, is_better_connected}

none≢some : {A : Type 0} {a : A} {m : Option A} → m ≡ none → m ≡ some a → ⊥
none≢some h e = cc

abbrev pub selected_id : Option MatchSelection → Option ℕ
selected_id none = none
selected_id (some m) = some m.candidate.user_id

module _ (seeker : QueueCandidate) (o : SelectOptions) where
  -- A pairing that breaks no hard rule and that each side accepts at its own stage.
  abbrev pub Legal : QueueCandidate → Type 0
  Legal c =
      (check_hard_rules seeker c o.occupied_user_ids ≡ none)
      × (accepts o seeker c ≡ true)
      × (accepts o c seeker ≡ true)

  consider_origin :
      (best : Option MatchSelection) (c : QueueCandidate)
      → (consider seeker o best c ≡ best)
        ⊎ (Legal c × (consider seeker o best c ≡ some (selection seeker o c)))
  unfolding consider
  consider_origin best c = ground arith

  abbrev Origin : Option MatchSelection → List QueueCandidate → MatchSelection → Type 0
  Origin best pool m =
      (best ≡ some m) ⊎ ((c : QueueCandidate) × In c pool × Legal c × (m ≡ selection seeker o c))

  select_loop-Origin :
      (best : Option MatchSelection) (pool : List QueueCandidate) (m : MatchSelection)
      → select_loop seeker o best pool ≡ some m
      → Origin best pool m
  unfolding select_loop
  select_loop-Origin best [] m h = inl h
  select_loop-Origin best (c ∷ pool) m h =
      elim (select_loop-Origin (consider seeker o best c) pool m h) [
        | inl e ↦ elim (consider_origin best c) [
          | inl same ↦ inl (sym same ∙ e)
          | inr (legal, new) ↦ inr (c, inl refl, legal, cc)
        ]
        | inr (d, at, legal, e) ↦ inr (d, inr at, legal, e)
      ]

  -- `c` does not beat what has been chosen.
  abbrev Tops : Option MatchSelection → QueueCandidate → Type 0
  Tops none c = ⊥
  Tops (some m) c = is_better (score_pair seeker c o.now) c m ≡ false

  consider-Tops_keep :
      (best : Option MatchSelection) (c d : QueueCandidate)
      → Tops best d
      → Tops (consider seeker o best c) d
  unfolding consider selection
  consider-Tops_keep none c d h = absurd h
  consider-Tops_keep (some b) c d h = ground (
    arith,
    is_better-replace (score_pair seeker d o.now) (score_pair seeker c o.now) d c b
        (selection seeker o c),
  )

  consider-Tops_new :
      (best : Option MatchSelection) (c : QueueCandidate)
      → Legal c
      → Tops (consider seeker o best c) c
  unfolding consider selection
  consider-Tops_new none c l =
      ground (arith, is_better_irrefl (score_pair seeker c o.now) c (selection seeker o c))
  consider-Tops_new (some b) c l =
      ground (arith, is_better_irrefl (score_pair seeker c o.now) c (selection seeker o c))

  select_loop-Tops_keep :
      (best : Option MatchSelection) (pool : List QueueCandidate) (d : QueueCandidate)
      → Tops best d
      → Tops (select_loop seeker o best pool) d
  unfolding select_loop
  select_loop-Tops_keep best [] d h = h
  select_loop-Tops_keep best (c ∷ pool) d h =
      select_loop-Tops_keep (consider seeker o best c) pool d (consider-Tops_keep best c d h)

  select_loop-Tops :
      (best : Option MatchSelection) (pool : List QueueCandidate) (d : QueueCandidate)
      → In d pool
      → Legal d
      → Tops (select_loop seeker o best pool) d
  unfolding select_loop
  select_loop-Tops best [] d h l = absurd h
  select_loop-Tops best (c ∷ pool) d (inl e) l =
      select_loop-Tops_keep (consider seeker o best c) pool d
        (subst (λ x. Tops (consider seeker o best x) d) e (consider-Tops_new best d l))
  select_loop-Tops best (c ∷ pool) d (inr h) l =
      select_loop-Tops (consider seeker o best c) pool d h l

  -- What is selected is a legal candidate of the pool, with its own score, shared interests and
  -- stages.
  pub select_sound :
      (pool : List QueueCandidate) (m : MatchSelection)
      → select_best_match seeker pool o ≡ some m
      → (c : QueueCandidate) × In c pool × Legal c × (m ≡ selection seeker o c)
  unfolding select_best_match
  select_sound pool m h = ground (arith, select_loop-Origin none pool m h)

  -- When a legal candidate is in the pool, someone is selected, and the candidate does not beat who
  -- is.
  pub select_best :
      (pool : List QueueCandidate) (c : QueueCandidate)
      → In c pool
      → Legal c
      → (m : MatchSelection) × (select_best_match seeker pool o ≡ some m)
        × (is_better (score_pair seeker c o.now) c m ≡ false)
  unfolding select_best_match
  select_best pool c at legal =
      topped (select_loop seeker o none pool) refl (select_loop-Tops none pool c at legal)
    where
      topped :
          (r : Option MatchSelection)
          → select_loop seeker o none pool ≡ r
          → Tops r c
          → (m : MatchSelection) × (select_loop seeker o none pool ≡ some m)
            × (is_better (score_pair seeker c o.now) c m ≡ false)
      topped none e t = absurd t
      topped (some m) e t = (m, e, t)

  -- Nobody is selected exactly when no candidate of the pool is legal.
  pub select_none_iff :
      (pool : List QueueCandidate)
      → (select_best_match seeker pool o ≡ none) ↔ ((c : QueueCandidate) → In c pool → ¬ Legal c)
  select_none_iff pool = (none_left, nothing_legal)
    where
      none_left :
          select_best_match seeker pool o ≡ none → (c : QueueCandidate) → In c pool → ¬ Legal c
      none_left h c at legal = let (m, e, _) = select_best pool c at legal in none≢some h e

      nothing_legal :
          ((c : QueueCandidate) → In c pool → ¬ Legal c) → select_best_match seeker pool o ≡ none
      nothing_legal h = elim (Option-cases (select_best_match seeker pool o)) [
        | inl e ↦ e
        | inr (m, e) ↦ let (c, at, legal, _) = select_sound pool m e in absurd (h c at legal)
      ]

  pub beaten_by_none :
      (pool : List QueueCandidate) (c : QueueCandidate) (m : MatchSelection)
      → In c pool
      → Legal c
      → select_best_match seeker pool o ≡ some m
      → is_better (score_pair seeker c o.now) c m ≡ false
  beaten_by_none pool c m at legal e =
      let (n, f, top) = select_best pool c at legal in
      let same : n ≡ m = cc (f, e) in
      subst (λ x. is_better (score_pair seeker c o.now) c x ≡ false) same top

  module _ (pool other : List QueueCandidate)
      (there : (c : QueueCandidate) → In c pool → In c other)
      (back : (c : QueueCandidate) → In c other → In c pool) where
    agreed :
        (m n : MatchSelection)
        → select_best_match seeker pool o ≡ some m
        → select_best_match seeker other o ≡ some n
        → m.candidate.user_id ≡ n.candidate.user_id
    unfolding selection
    agreed m n e f =
        let (c, c_at, c_legal, c_eq) = select_sound pool m e in
        let (d, d_at, d_legal, d_eq) = select_sound other n f in
        cc (
          is_better_connected (score_pair seeker c o.now) (score_pair seeker d o.now) c d m n
            (ap (λ x. x.score) c_eq) (ap (λ x. x.candidate) c_eq) (ap (λ x. x.score) d_eq)
            (ap (λ x. x.candidate) d_eq) (beaten_by_none other c n (there c c_at) c_legal f)
            (beaten_by_none pool d m (back d d_at) d_legal e))

    -- Two pools with the same members, in whatever order and with whatever repetitions, lead to
    -- selections of one user, or of nobody both times.
    pub select_agree :
        selected_id (select_best_match seeker pool o)
        ≡ selected_id (select_best_match seeker other o)
    select_agree = elim (Option-cases (select_best_match seeker pool o)) [
      | inl e ↦ rw (e, (select_none_iff other).1 (λ c at. (select_none_iff pool).0 e c (back c at)))
      | inr (m, e) ↦ elim (Option-cases (select_best_match seeker other o)) [
        | inl f ↦
            let (c, at, legal, _) = select_sound pool m e in
            absurd ((select_none_iff other).0 f c (there c at) legal)
        | inr (n, f) ↦ rw (e, f) (ap some (agreed m n e f))
      ]
    ]
