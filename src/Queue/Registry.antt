-- ===== src/Queue/Registry.antt =====
-- The match registry that the signaling relay consults, and the memory of recent partners.
-- The peer relation of a match is symmetric: whoever a frame is relayed to can answer.
use trip2world.Queue.Store.{Store, ZSet}
use trip2world.Queue.Sets.{members, zrem, zinsert, zadd}
use trip2world.Queue.Repository.{
  resolve_peer, current_match, trim_expired, get_match_participants, save_match, release_match,
  claim_for_match, recent_partners, peer_in, record_recent_partner,
}
use trip2world.Prelude.{
  ℕ, ◌+◌, ◌*◌, ◌≤◌, ◌<◌, ◌≡◌, refl, ap, ◌≢◌, ◌↔◌, ◌⊎◌, inl, inr, true, false, none, some, [], ◌∷◌,
  arith, ltb, ◌==◌, if◌then◌else◌, Option-cases, In, In-filter, In-filter_of, at_key,
}

pub resolve_peer_sym :
    (m u v : ℕ) (s : Store) → resolve_peer m u s ≡ some v → resolve_peer m v s ≡ some u
unfolding resolve_peer get_match_participants peer_in
resolve_peer_sym m u v s h = elim (Option-cases (s.match_of m)) [
  | inl e ↦ absurd (ground arith)
  | inr (p, e) ↦ rw e (ground arith)
]

-- After a match is saved, its two users are each other's peer in it, nobody else has a peer in it,
-- and every other match is as before.
pub resolve_peer-save_match :
    (m a b n u : ℕ) (s : Store)
    → resolve_peer n u (save_match m a b s) ≡ (
        if n == m
        then (if a == u then some b else (if b == u then some a else none))
        else resolve_peer n u s)
unfolding resolve_peer save_match get_match_participants peer_in
resolve_peer-save_match m a b n u s = ground arith

-- An end of one match that arrives late leaves alone a user who is in another one by now, and every
-- other user; a user who is in that match is free afterwards.
pub current_match-release_match :
    (u m v : ℕ) (s : Store)
    → (current_match v (release_match u m s) ≡ current_match v s
        × ((v ≢ u) ⊎ (current_match u s ≢ some m)))
      ⊎ ((v ≡ u) × (current_match v s ≡ some m) × (current_match v (release_match u m s) ≡ none))
unfolding current_match release_match
current_match-release_match u m v s = elim (Option-cases (s.user_match u)) [
  | inl e ↦ ground arith
  | inr (w, e) ↦ ground arith
]

-- A claim succeeds exactly on a user who is free, who is then in that match, and changes no other;
-- when it fails, everything is as before.
pub claim_for_match-cases :
    (u m v : ℕ) (s : Store)
    → ((claim_for_match u m s).0 ≡ true
        × (current_match u s ≡ none)
        × (current_match v (claim_for_match u m s).1
            ≡ (if v == u then some m else current_match v s)))
      ⊎ ((claim_for_match u m s).0 ≡ false
          × (¬ (current_match u s ≡ none))
          × (current_match v (claim_for_match u m s).1 ≡ current_match v s))
unfolding current_match claim_for_match
claim_for_match-cases u m v s = elim (Option-cases (s.user_match u)) [
  | inl e ↦ inl (ground arith)
  | inr (w, e) ↦ inr (ground arith)
]

In-members : (p : ℕ) (z : ZSet) → In p (members z) → (t : ℕ) × In (t, p) z
unfolding members
In-members p [] h = absurd h
In-members p ((s, n) ∷ z) (inl e) = (s, inl (rw e refl))
In-members p ((s, n) ∷ z) (inr h) = let (t, found) = In-members p z h in (t, inr found)

members_of : (t p : ℕ) (z : ZSet) → In (t, p) z → In p (members z)
unfolding members
members_of t p [] h = absurd h
members_of t p ((s, n) ∷ z) (inl e) = inl (ap (λ r. r.1) e)
members_of t p ((s, n) ∷ z) (inr h) = inr (members_of t p z h)

In-trim_expired :
    (now t p : ℕ) (z : ZSet) → (In (t, p) (trim_expired now z)) ↔ (In (t, p) z × (now < t))
unfolding trim_expired
In-trim_expired now t p z = (
  λ h. let (member, live) = In-filter (λ e. ltb now e.0) (t, p) z h in (member, ground arith),
  λ h. In-filter_of (λ e. ltb now e.0) (t, p) z h.0 (ground arith),
)

In-zrem : (t q p : ℕ) (z : ZSet) → (In (t, q) (zrem p z)) ↔ ((q ≢ p) × In (t, q) z)
unfolding zrem
In-zrem t q p [] = ground arith
In-zrem t q p ((s, n) ∷ z) = ground (arith, In-zrem t q p z)

In-zinsert :
    (t q s p : ℕ) (z : ZSet) → (In (t, q) (zinsert s p z)) ↔ (((t ≡ s) × (q ≡ p)) ⊎ In (t, q) z)
unfolding zinsert
In-zinsert t q s p [] = ground arith
In-zinsert t q s p ((r, n) ∷ z) = ground (arith, In-zinsert t q s p z)

-- An entry that was recorded and trimmed twice.
recorded :
    (now later t q sc p : ℕ) (z : ZSet)
    → now ≤ later
    → (In (t, q) (trim_expired later (trim_expired now (zadd sc p z))))
      ↔ ((later < t) × (((t ≡ sc) × (q ≡ p)) ⊎ ((q ≢ p) × In (t, q) z)))
unfolding zadd
recorded now later t q sc p z order = ground (
  arith,
  In-trim_expired later t q (trim_expired now (zinsert sc p (zrem p z))),
  In-trim_expired now t q (zinsert sc p (zrem p z)),
  In-zinsert t q sc p (zrem p z),
  In-zrem t q p z,
)

-- A partner is on the list of recent partners from when it is recorded until the time to live is
-- over, and no longer; another partner is on it as it would be otherwise.
pub recent_partners-record :
    (now later u p ttl q : ℕ) (s : Store)
    → now ≤ later
    → (In q (recent_partners later u (record_recent_partner now u p ttl s)).0)
      ↔ (((q ≡ p) × (later < now + ttl * 1000)) ⊎ ((q ≢ p) × In q (recent_partners later u s).0))
unfolding recent_partners record_recent_partner
recent_partners-record now later u p ttl q s order =
    let own : at_key s.recent u (trim_expired now (zadd (now + ttl * 1000) p (s.recent u))) u
        ≡ trim_expired now (zadd (now + ttl * 1000) p (s.recent u)) =
      ground arith in
    rw own (to, from)
  where
    twice : ZSet
    twice = trim_expired later (trim_expired now (zadd (now + ttl * 1000) p (s.recent u)))

    to :
        In q (members twice)
        → ((q ≡ p) × (later < now + ttl * 1000))
          ⊎ ((q ≢ p) × In q (members (trim_expired later (s.recent u))))
    to h =
        let (t, found) = In-members q twice h in
        ground (
          arith,
          (recorded now later t q (now + ttl * 1000) p (s.recent u) order).0 found,
          In-trim_expired later t q (s.recent u),
          members_of t q (trim_expired later (s.recent u)),
        )

    from :
        ((q ≡ p) × (later < now + ttl * 1000))
          ⊎ ((q ≢ p) × In q (members (trim_expired later (s.recent u))))
        → In q (members twice)
    from (inl (same, live)) = members_of (now + ttl * 1000) q twice (
        (recorded now later _ q (now + ttl * 1000) p (s.recent u) order).1 (live, inl (refl, same)))
    from (inr (other, h)) =
        let (t, found) = In-members q (trim_expired later (s.recent u)) h in
        let (member, live) = (In-trim_expired later t q (s.recent u)).0 found in
        members_of t q twice (
          (recorded now later t q (now + ttl * 1000) p (s.recent u) order).1
            (live, inr (other, member)))
