-- ===== src/Social/Agreement.antt =====
-- Two users are connected exactly when one has accepted the other's request.
use trip2world.Prelude.{
  ℕ, ◌≡◌, refl, ◌≢◌, ◌⊎◌, inl, inr, Bool, true, false, ◌||◌, Option, none, some, List, [], ◌∷◌,
  arith, ltb, if◌then◌else◌, Bool-cases, is_some,
}
use trip2world.Social.Connections.{
  SocialDb, ConnectionRequest, RequestInput, remove_connection, create_block, remove_block,
  are_connected, order_connection_pair, pending, accepted, declined, cancelled, expired,
  connect_pair, respond_row, put_request, is_pending, connection_of, has_connection_id,
}
use trip2world.Social.Steps.{
  SocialCall, social_call, social_run, written, send_keeps, respond_keeps, sends, answers, removes,
  blocks_user, unblocks_user, changes_person,
}

abbrev is_accepted : Option ConnectionRequest → Bool
is_accepted none = false
is_accepted (some r) = elim (r.request_status) [
  | pending ↦ false
  | accepted ↦ true
  | declined ↦ false
  | cancelled ↦ false
  | expired ↦ false
]

-- Whoever is connected has accepted a request, and the other way round.
unfoldable pub Agreed : SocialDb → Type 0
Agreed db =
    (x y : ℕ)
    → x ≢ y
    → are_connected x y db ≡ (is_accepted (db.requests x y) || is_accepted (db.requests y x))

order_sym : (u v : ℕ) → order_connection_pair u v ≡ order_connection_pair v u
unfolding order_connection_pair
order_sym u v = by_order (ltb u v) (ltb v u) (ground arith)
  where
    by_order :
        (p q : Bool)
        → ((p ≡ true) × (q ≡ false)) ⊎ (((p ≡ false) × (q ≡ true)) ⊎ (u ≡ v))
        → ◌≡◌ {A = ℕ × ℕ} (if p then (u, v) else (v, u)) (if q then (v, u) else (u, v))
    by_order p q (inl (e, f)) = rw (e, f) refl
    by_order p q (inr (inl (e, f))) = rw (e, f) refl
    by_order p q (inr (inr e)) = ground (arith, e)

linked-Agreed :
    (now u w : ℕ) (m : Option ℕ) (db : SocialDb)
    → is_pending (db.requests w u) ≡ true
    → Agreed db
    → Agreed (connect_pair u w m (respond_row now w u accepted db))
unfolding Agreed are_connected
linked-Agreed now u w m db row inv x y two = elim (Bool-cases (is_some (connection_of u w db))) [
  | inl kept ↦ rw kept (ground (arith, kept, row, inv x y two, order_sym u w))
  | inr fresh ↦ rw fresh (
      ground (
        arith,
        fresh,
        row,
        inv x y two,
        written db.connections x y u w
            (some (record { connection_id = db.next_row; origin_match = m })),
      ))
]

declined-Agreed :
    (now u w : ℕ) (db : SocialDb)
    → is_pending (db.requests w u) ≡ true
    → Agreed db
    → Agreed (respond_row now w u declined db)
unfolding Agreed are_connected
declined-Agreed now u w db row inv x y two = ground (arith, row, inv x y two, inv u w)

asked-Agreed :
    (now u : ℕ) (d : RequestInput) (db : SocialDb)
    → are_connected u d.asked_user db ≡ false
    → Agreed db
    → Agreed (put_request now u d db)
unfolding Agreed are_connected
asked-Agreed now u d db apart inv x y two =
    ground (arith, apart, inv x y two, order_sym u d.asked_user)

removed-Agreed : (u w id : ℕ) (db : SocialDb) → Agreed db → Agreed (remove_connection u w id db).1
unfolding Agreed are_connected remove_connection
removed-Agreed u w id db inv x y two =
    elim (Bool-cases (has_connection_id id (connection_of u w db))) [
      | inl found ↦ rw found (ground (arith, inv x y two, written db.connections x y u w none))
      | inr missing ↦ rw missing (inv x y two)
    ]

call-Agreed : (c : SocialCall) (db : SocialDb) → Agreed db → Agreed (social_call c db)
unfolding social_call Agreed are_connected create_block remove_block
call-Agreed (sends now u d) db inv =
    send_keeps Agreed (λ n v w m b e f i. linked-Agreed n v w m b e i) declined-Agreed asked-Agreed
      now u d db inv
call-Agreed (answers now u w id accept) db inv =
    respond_keeps Agreed (λ n v w m b e f i. linked-Agreed n v w m b e i) declined-Agreed
      asked-Agreed now u w id accept db inv
call-Agreed (removes u partner id) db inv = removed-Agreed u partner id db inv
call-Agreed (blocks_user u target) db inv = λ x y two. ground (arith, inv x y two)
call-Agreed (unblocks_user u target) db inv = inv
call-Agreed (changes_person u p) db inv = inv

-- Two users are connected exactly when one of them has accepted the other's request, after any run of
-- requests, answers, removals, blocks and changes of users.
-- Assumed: so it is at the start.
pub social_run-Agreed :
    (calls : List SocialCall) (db : SocialDb) → Agreed db → Agreed (social_run calls db)
unfolding social_run
social_run-Agreed [] db inv = inv
social_run-Agreed (c ∷ calls) db inv =
    social_run-Agreed calls (social_call c db) (call-Agreed c db inv)
