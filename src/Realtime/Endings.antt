-- ===== src/Realtime/Endings.antt =====
-- The end of a match by an event: by its participants, and by a block or a report of anyone.
use trip2world.Prelude.{
  ℕ, ◌≡◌, refl, sym, ap, ◌∙◌, subst, ◌≢◌, inl, inr, Bool, true, false, ◌&&◌, Option, none, some,
  List, [], ◌∷◌, ◌++◌, arith, leb, ◌==◌, if◌then◌else◌, Bool-cases, is_some, In, includes, ==_refl,
}
use trip2world.Queue.Store.{Store, MatchRecord, holds}
use trip2world.Queue.Repository.{
  resolve_peer, get_match_participants, peer_in, current_match, delete_match, release_match,
  check_skip_cooldown, is_queued, invalidate_blocks,
}
use trip2world.Pairing.Types.{World, MatchEndReason, skipped, ended, blocked}
use trip2world.Pairing.Ending.{end_match, end_match_once, release_all}
use trip2world.Realtime.Hub.{
  Hub, Frame, Sender, partner_left, queue_joined, acknowledged, tell, reply, Message, failed,
  not_in_match, match_ended,
}
use trip2world.Realtime.Matches.{teardown_match, teardown_found, on_store, peer_of}
use trip2world.Realtime.Handlers.{match_end, match_skip}
use trip2world.Realtime.Safety.{end_named, user_block, put_block}
use trip2world.Realtime.Rooms.{Reaches, match_end_outsider}

-- The match is no more: nobody has a peer in it, and neither participant is occupied by it.
pub record Over (m : ℕ) (p : MatchRecord) (w : World) : Type 0 where
  pub no_peer : (u : ℕ) → resolve_peer m u w.redis ≡ none
  pub first_free : current_match p.user_a w.redis ≢ some m
  pub second_free : current_match p.user_b w.redis ≢ some m

not_held :
    (o : Option ℕ) (m : ℕ) (named : Bool)
    → named ≡ true
    → (if named && holds o m then none else o) ≢ some m
not_held o m named e = rw e (by_value o)
  where
    by_value : (x : Option ℕ) → (if true && holds x m then none else x) ≢ some m
    by_value none = λ f. ground (arith, f)
    by_value (some k) = λ f. ground (arith, f)

teardown-Over :
    (db_up : Bool) (now m : ℕ) (who : Option ℕ) (reason : MatchEndReason) (p : MatchRecord)
    (h : Hub)
    → Over m p (teardown_found db_up now m who reason (some p) h).1.world
unfolding teardown_found get_match_participants resolve_peer peer_in delete_match current_match
teardown-Over db_up now m who reason p h = record {
  no_peer = λ u. rw (==_refl m) refl;
  first_free =
      subst (λ o. o ≢ some m) (sym (after p.user_a))
        (not_held (h.world.redis.user_match p.user_a) m
          (includes (p.user_a ∷ p.user_b ∷ []) p.user_a) (rw (==_refl p.user_a) refl));
  second_free =
      subst (λ o. o ≢ some m) (sym (after p.user_b))
        (not_held (h.world.redis.user_match p.user_b) m
          (includes (p.user_a ∷ p.user_b ∷ []) p.user_b) (ground (arith, ==_refl p.user_b)));
}
  where
    after :
        (u : ℕ)
        → current_match u
            (end_match db_up m (p.user_a ∷ p.user_b ∷ []) reason who now h.world).redis
          ≡ (if includes (p.user_a ∷ p.user_b ∷ []) u && holds (current_match u h.world.redis) m
              then none
              else current_match u h.world.redis)
    after u =
        (end_match_once db_up m (p.user_a ∷ p.user_b ∷ []) [] reason reason who who now now u
          h.world).0

pub teardown_peer :
    (p : Option MatchRecord) (u v : ℕ)
    → peer_in p u ≡ some v
    → (r : MatchRecord) × (p ≡ some r) × (peer_of r (some u) ≡ some v)
unfolding peer_in
teardown_peer none u v e = absurd (ground (arith, e))
teardown_peer (some r) u v e = (r, refl, ground (arith, e))

In-prefix : (f : Frame) (gs : List Frame) (fs : List Frame) → In f fs → In f (fs ++ gs)
In-prefix f gs [] i = absurd i
In-prefix f gs (x ∷ xs) (inl e) = inl e
In-prefix f gs (x ∷ xs) (inr i) = inr (In-prefix f gs xs i)

-- A participant that ends a match ends it for both, and the peer is told.
pub match_end-Over :
    (db_up : Bool) (s : Sender) (m peer : ℕ) (h : Hub)
    → resolve_peer m s.sender_id h.world.redis ≡ some peer
    → (p : MatchRecord) × (h.world.redis.match_of m ≡ some p)
      × Over m p (match_end db_up s (some m) h).1.world
      × In (tell peer (partner_left m ended)) (match_end db_up s (some m) h).0
unfolding match_end teardown_match teardown_found get_match_participants resolve_peer
match_end-Over db_up s m peer h e =
    let (p, f, g) = teardown_peer (h.world.redis.match_of m) s.sender_id peer e in
    (
      p,
      f,
      rw (e, f) (teardown-Over db_up s.at_time m (some s.sender_id) ended p h),
      rw (e, f) (told p g),
    )
  where
    told :
        (p : MatchRecord)
        → peer_of p (some s.sender_id) ≡ some peer
        → In (tell peer (partner_left m ended)) (
            (teardown_found db_up s.at_time m (some s.sender_id) ended (some p) h).0
            ++ reply s (match_ended m ended false) ∷ reply s acknowledged ∷ [])
    told p g = rw g (inl refl)

no_peer_told : (p : MatchRecord) (u : ℕ) → peer_in (some p) u ≡ none → peer_of p (some u) ≡ none
unfolding peer_in
no_peer_told p u e = ground (arith, e)

two_replies : (s : Sender) (a b : Message) (v : ℕ) → ¬ (Reaches v (reply s a ∷ reply s b ∷ []))
two_replies s a b v (f, inl e, at) = absurd (ground (arith, ap Frame.address e, at))
two_replies s a b v (f, inr (inl e), at) = absurd (ground (arith, ap Frame.address e, at))
two_replies s a b v (f, inr (inr i), at) = absurd i

-- A block of anyone but oneself, sent by a user who has no peer in the match that it names, ends that
-- match for its two participants, although match:end refuses to end it to that user; and then no
-- frame is sent to a user.
pub user_block_outsider :
    (db_up : Bool) (s : Sender) (target m : ℕ) (p : MatchRecord) (h : Hub)
    → target ≢ s.sender_id
    → h.world.redis.match_of m ≡ some p
    → resolve_peer m s.sender_id h.world.redis ≡ none
    → (match_end db_up s (some m) h ≡ (reply s (failed not_in_match) ∷ [], h))
      × Over m p
          (user_block db_up s
            (some (record { block_target = target; block_match = some m }))
            h).1.world
      × ((v : ℕ)
          → ¬ (
              Reaches v
                (user_block db_up s
                  (some (record { block_target = target; block_match = some m }))
                  h).0))
unfolding user_block end_named teardown_match teardown_found get_match_participants put_block
    resolve_peer peer_in invalidate_blocks
user_block_outsider db_up s target m p h two e out =
    let other : (target == s.sender_id) ≡ false = ground (arith, two) in
    (
      match_end_outsider db_up s m h out,
      rw (other, e)
          (teardown-Over db_up s.at_time m (some s.sender_id) blocked p
            (put_block s.sender_id target h)),
      rw (other, e, no_peer_told p s.sender_id (ap (λ o. peer_in o s.sender_id) (sym e) ∙ out))
          (λ v r. two_replies s (match_ended m blocked false) acknowledged v r),
    )

pub cooldown_keeps :
    (ttl u min_seconds : ℕ) (x : Store)
    → ((check_skip_cooldown ttl u min_seconds x).1.match_of ≡ x.match_of)
      × ((check_skip_cooldown ttl u min_seconds x).1.user_match ≡ x.user_match)
      × ((check_skip_cooldown ttl u min_seconds x).1.entry ≡ x.entry)
unfolding check_skip_cooldown
cooldown_keeps ttl u min_seconds x = elim (Bool-cases (leb min_seconds 0)) [
  | inl off ↦ rw off (refl, refl, refl)
  | inr on ↦ elim (Bool-cases (x.skip_marker u)) [
    | inl hit ↦ rw (on, hit) (refl, refl, refl)
    | inr miss ↦ rw (on, miss) (refl, refl, refl)
  ]
]

pub teardown_entry :
    (db_up : Bool) (now m : ℕ) (who : Option ℕ) (reason : MatchEndReason) (p : Option MatchRecord)
    (h : Hub)
    → (teardown_found db_up now m who reason p h).1.world.redis.entry ≡ h.world.redis.entry
unfolding teardown_found end_match release_all release_match delete_match
teardown_entry db_up now m who reason none h = refl
teardown_entry db_up now m who reason (some p) h = refl

last_of : (f : Frame) (a b : Frame) (fs : List Frame) → In f (fs ++ a ∷ b ∷ f ∷ [])
last_of f a b [] = inr (inr (inl refl))
last_of f a b (x ∷ xs) = inr (last_of f a b xs)

-- A skip with `requeue` that goes through answers that the queue is joined, and leaves the sender as
-- much out of the queue as before.
pub match_skip-is_queued :
    (db_up : Bool) (ttl min_seconds : ℕ) (s : Sender) (m peer : ℕ) (h : Hub)
    → (check_skip_cooldown ttl s.sender_id min_seconds h.world.redis).0 ≡ 0
    → resolve_peer m s.sender_id h.world.redis ≡ some peer
    → let r =
        match_skip db_up ttl min_seconds s (some (record { skip_match = m; requeue = true })) h in
      In (reply s queue_joined) r.0
      × (is_queued s.sender_id r.1.world.redis ≡ is_queued s.sender_id h.world.redis)
unfolding match_skip teardown_match is_queued resolve_peer get_match_participants
match_skip-is_queued db_up ttl min_seconds s m peer h e f =
    let (rooms, _, entries) = cooldown_keeps ttl s.sender_id min_seconds h.world.redis in
    let spaced : Hub =
      on_store (λ x. (check_skip_cooldown ttl s.sender_id min_seconds h.world.redis).1) h in
    let met : peer_in (spaced.world.redis.match_of m) s.sender_id ≡ some peer =
      ap (λ ms. peer_in (ms m) s.sender_id) rooms ∙ f in
    let ended_now =
      teardown_found db_up s.at_time m (some s.sender_id) skipped (spaced.world.redis.match_of m)
        spaced in
    rw (e, met)
      (
        last_of (reply s queue_joined) (reply s (match_ended m skipped true)) (reply s acknowledged)
            ended_now.0,
        ap (λ es. is_some (es s.sender_id))
            (teardown_entry db_up s.at_time m (some s.sender_id) skipped
                (spaced.world.redis.match_of m) spaced
              ∙ entries),
      )
