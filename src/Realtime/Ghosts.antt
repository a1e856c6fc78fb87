-- ===== src/Realtime/Ghosts.antt =====
-- The presence of users through any run of the service's calls, on any nodes, and of expiries.
use trip2world.Prelude.{
  ℕ, ◌≡◌, refl, ◌↔◌, inl, inr, Bool, true, false, not, none, List, [], ◌∷◌, arith, ltb, ◌==◌,
  Bool-cases, length, filter, any, In, includes, at_key, ==_refl, In-filter, In-filter_of,
  includes-In,
}
use trip2world.Realtime.Presence.{
  PresenceTable, PresenceState, connect, heartbeat, set_state, disconnect, clear_node, drop_users,
  drop_user, expire_keys, srem, sadd, on_node,
}

pub data PresenceCall : Type 0 where
  connects : ℕ → ℕ → ℕ → ℕ → PresenceCall
  beats : ℕ → ℕ → PresenceCall
  takes_state : ℕ → ℕ → PresenceState → PresenceCall
  disconnects : ℕ → ℕ → PresenceCall
  clears : ℕ → PresenceCall
  keys_expire : ℕ → PresenceCall

unfoldable pub serve : PresenceCall → PresenceTable → PresenceTable
serve (connects this_node now u socket) p = connect this_node now u socket p
serve (beats now u) p = heartbeat now u p
serve (takes_state now u st) p = set_state now u st p
serve (disconnects u socket) p = (disconnect u socket p).1
serve (clears this_node) p = clear_node this_node p
serve (keys_expire u) p = expire_keys u p

unfoldable pub serve_all : List PresenceCall → PresenceTable → PresenceTable
serve_all [] p = p
serve_all (call ∷ calls) p = serve_all calls (serve call p)

-- Whether a call is one of the user's sockets.
abbrev pub is_of : ℕ → PresenceCall → Bool
is_of u (connects this_node now v socket) = v == u
is_of u (beats now v) = v == u
is_of u (takes_state now v st) = v == u
is_of u (disconnects v socket) = v == u
is_of u (clears this_node) = false
is_of u (keys_expire v) = false

-- Counted as online with no presence.
abbrev pub Ghost : ℕ → PresenceTable → Type 0
Ghost u p = (p.hashes u ≡ none) × In u p.online_set

sadd_keeps : (u v : ℕ) (xs : List ℕ) → In u xs → In u (sadd v xs)
sadd_keeps u v xs i = ground (arith, i)

srem_keeps : (u v : ℕ) (xs : List ℕ) → (v == u) ≡ false → In u xs → In u (srem v xs)
srem_keeps u v xs other i = In-filter_of (λ x. not (x == v)) u xs i (ground (arith, other))

drop-Ghost : (u v : ℕ) (p : PresenceTable) → (v == u) ≡ false → Ghost u p → Ghost u (drop_user v p)
drop-Ghost u v p other (e, i) =
    let apart : (u == v) ≡ false = ground (arith, other) in
    (rw apart e, srem_keeps u v p.online_set other i)

drop_users-Ghost :
    (u : ℕ) (vs : List ℕ) (p : PresenceTable)
    → includes vs u ≡ false
    → Ghost u p
    → Ghost u (drop_users vs p)
unfolding drop_users
drop_users-Ghost u [] p h g = g
drop_users-Ghost u (v ∷ vs) p h g =
    drop_users-Ghost u vs (drop_user v p) (ground (arith, h))
      (drop-Ghost u v p (ground (arith, h)) g)

not_filtered : (p : ℕ → Bool) (u : ℕ) (xs : List ℕ) → p u ≡ false → includes (filter p xs) u ≡ false
not_filtered p u xs e = elim (Bool-cases (includes (filter p xs) u)) [
  | inl hit ↦
      let (i, f) = In-filter p u xs (includes-In u (filter p xs) hit) in
      absurd (ground (arith, e, f))
  | inr miss ↦ miss
]

disconnect-Ghost :
    (v socket u : ℕ) (p : PresenceTable)
    → (v == u) ≡ false
    → Ghost u p
    → Ghost u (disconnect v socket p).1
unfolding disconnect
disconnect-Ghost v socket u p other g =
    elim (Bool-cases (ltb 0 (length (srem socket (p.sockets v))))) [
      | inl more ↦ rw more g
      | inr last ↦ rw last (
          drop-Ghost u v (record p { sockets = at_key p.sockets v (srem socket (p.sockets v)) })
            other g)
    ]

serve-Ghost :
    (call : PresenceCall) (u : ℕ) (p : PresenceTable)
    → is_of u call ≡ false
    → Ghost u p
    → Ghost u (serve call p)
unfolding serve connect heartbeat set_state disconnect clear_node expire_keys
serve-Ghost (connects this_node now v socket) u p other (e, i) =
    let apart : (u == v) ≡ false = ground (arith, other) in
    (rw apart e, sadd_keeps u v p.online_set i)
serve-Ghost (beats now v) u p other (e, i) =
    let apart : (u == v) ≡ false = ground (arith, other) in (rw apart e, i)
serve-Ghost (takes_state now v st) u p other (e, i) =
    let apart : (u == v) ≡ false = ground (arith, other) in (rw apart e, i)
serve-Ghost (disconnects v socket) u p other g = disconnect-Ghost v socket u p other g
serve-Ghost (clears this_node) u p other g =
    drop_users-Ghost u (filter (λ v. on_node this_node (p.hashes v)) p.online_set) p
      (not_filtered (λ v. on_node this_node (p.hashes v)) u p.online_set (rw (g.0) refl)) g
serve-Ghost (keys_expire v) u p other (e, i) =
    (elim (Bool-cases (u == v)) [ inl hit ↦ rw hit refl | inr miss ↦ rw miss e ], i)

-- A user who goes without a disconnect stays in the set that is counted once the presence of the user
-- has expired: no run of calls other than those of the user's own sockets, not even every node's
-- shutdown, takes the user out.
pub serve_all-Ghost :
    (calls : List PresenceCall) (u : ℕ) (p : PresenceTable)
    → any (is_of u) calls ≡ false
    → In u p.online_set
    → Ghost u (serve_all calls (expire_keys u p))
unfolding serve_all expire_keys
serve_all-Ghost calls u p others i = through calls (expire_keys u p) others (rw (==_refl u) refl, i)
  where
    through :
        (cs : List PresenceCall) (q : PresenceTable)
        → any (is_of u) cs ≡ false
        → Ghost u q
        → Ghost u (serve_all cs q)
    through [] q h g = g
    through (c ∷ cs) q h g =
        through cs (serve c q) (ground (arith, h)) (serve-Ghost c u q (ground (arith, h)) g)

-- The last socket of a user takes the user out, and no other socket does.
pub disconnect-last :
    (u socket : ℕ) (p : PresenceTable)
    → ((disconnect u socket p).0 ≡ true) ↔ (srem socket (p.sockets u) ≡ [])
unfolding disconnect
disconnect-last u socket p = by_rest (srem socket (p.sockets u)) refl
  where
    by_rest :
        (xs : List ℕ)
        → srem socket (p.sockets u) ≡ xs
        → ((disconnect u socket p).0 ≡ true) ↔ (srem socket (p.sockets u) ≡ [])
    by_rest [] e = rw e ((λ x. refl), λ x. refl)
    by_rest (x ∷ xs) e = rw e (ground arith)
