-- ===== src/Realtime/Housed.antt =====
-- Rooms and occupancy: each event of the server leaves every occupied user with a peer to talk to.
use trip2world.Pairing.Types.{MatchEndReason}
use trip2world.Pairing.Ending.{end_match, release_all, end_match_once}
use trip2world.Realtime.Matches.{teardown_match, on_store, teardown_found}
use trip2world.Queue.Repository.{current_match, get_match_participants, delete_match, release_match}
use trip2world.Queue.Store.{Store, holds, MatchRecord}
use trip2world.Realtime.Hub.{Hub}
use trip2world.Prelude.{
  ℕ, ◌≡◌, refl, sym, ap, ◌∙◌, inl, inr, Bool, true, false, ◌&&◌, Option, none, some, [], ◌∷◌, arith,
  ◌==◌, if◌then◌else◌, Bool-cases, includes, at_key,
}
use trip2world.Pairing.Prepare.{Tick}
use trip2world.Pairing.Occupancy.{occupied}

-- Whoever is occupied by a match is one of the two users of its room.
unfoldable pub Housed : Hub → Type 0
Housed h =
    (u m : ℕ)
    → occupied h.world u ≡ some m
    → (p : MatchRecord) × (h.world.redis.match_of m ≡ some p)
      × (includes (p.user_a ∷ p.user_b ∷ []) u ≡ true)

-- No room has the id that a turn of the matchmaker draws.
abbrev pub Unused : Tick → Hub → Type 0
Unused t h = h.world.redis.match_of t.fresh_match_id ≡ none

abbrev pub SameMatches : Store → Store → Type 0
SameMatches x y = (x.user_match ≡ y.user_match) × (x.match_of ≡ y.match_of)

pub same-Housed : (g h : Hub) → SameMatches g.world.redis h.world.redis → Housed h → Housed g
unfolding Housed current_match
same-Housed g h (users, rooms) inv u m e =
    let (p, f, i) = inv u m (ap (λ x. x u) (sym users) ∙ e) in (p, ap (λ x. x m) rooms ∙ f, i)

-- An end of a user's occupancy that is not the end of the match: a TTL, or an eviction.
unfoldable pub free_user : ℕ → Hub → Hub
free_user u h = on_store (λ x. record x { user_match = at_key x.user_match u none }) h

pub free_user-Housed : (v : ℕ) (h : Hub) → Housed h → Housed (free_user v h)
unfolding Housed free_user current_match
free_user-Housed v h inv u m e = elim (Bool-cases (u == v)) [
  | inl same ↦ absurd (ground (arith, e, same))
  | inr other ↦ inv u m (ground (arith, e, other))
]

some_injective : {A : Type 0} {x y : A} → some x ≡ some y → x ≡ y
some_injective e = cc

-- Who is still in a match after the end of another.
kept :
    (o : Option ℕ) (named : Bool) (m k : ℕ)
    → (if named && holds o m then none else o) ≡ some k
    → (o ≡ some k) × ((k ≡ m) → named ≡ false)
kept none named m k e = absurd (ground (arith, e))
kept (some n) true m k e = (ground (arith, e), λ f. absurd (ground (arith, e, f)))
kept (some n) false m k e = (e, λ f. refl)

pub teardown-Housed :
    (db_up : Bool) (now m : ℕ) (who : Option ℕ) (reason : MatchEndReason) (h : Hub)
    → Housed h
    → Housed (teardown_match db_up now m who reason h).1
unfolding Housed teardown_match teardown_found get_match_participants delete_match current_match
    end_match release_all release_match
teardown-Housed db_up now m who reason h inv = by_room (h.world.redis.match_of m) refl
  where
    other_room :
        (p q : MatchRecord) (u k : ℕ)
        → h.world.redis.match_of m ≡ some p
        → h.world.redis.match_of k ≡ some q
        → includes (q.user_a ∷ q.user_b ∷ []) u ≡ true
        → (k ≡ m → includes (p.user_a ∷ p.user_b ∷ []) u ≡ false)
        → (k == m) ≡ false
    other_room p q u k e f i out = elim (Bool-cases (k == m)) [
      | inl same ↦
          let g : k ≡ m = ground (arith, same) in
          let r : p ≡ q = some_injective (sym e ∙ ap h.world.redis.match_of (sym g) ∙ f) in
          absurd (ground (arith, out g, ap (λ x. includes (x.user_a ∷ x.user_b ∷ []) u) r, i))
      | inr apart ↦ apart
    ]

    by_room :
        (o : Option MatchRecord)
        → h.world.redis.match_of m ≡ o
        → Housed (teardown_found db_up now m who reason o h).1
    by_room none e = inv
    by_room (some p) e = λ u k held.
        let after =
          (end_match_once db_up m (p.user_a ∷ p.user_b ∷ []) [] reason reason who who now now u
            h.world).0 in
        let (was, out) =
          kept (occupied h.world u) (includes (p.user_a ∷ p.user_b ∷ []) u) m k
            (sym after ∙ held) in
        let (q, f, i) = inv u k was in (q, rw (other_room p q u k e f i out) f, i)
