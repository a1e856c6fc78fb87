-- ===== src/Social/Separation.antt =====
-- A block keeps apart whom it finds apart, and a request that has lapsed still connects.
use trip2world.Prelude.{
  ℕ, ◌≤◌, ◌≡◌, refl, ◌≢◌, inl, inr, Bool, true, false, not, ◌&&◌, Option, none, some, List, [], ◌∷◌,
  arith, ltb, ◌==◌, Bool-cases, is_some, filter, any, ==_refl,
}
use trip2world.Realtime.Safety.{is_block, upsert_block}
use trip2world.Realtime.Hub.{BlockRow}
use trip2world.Social.Connections.{
  SocialDb, Person, ConnectionRequest, RequestInput, send_request, remove_connection, create_block,
  remove_block, are_connected, order_connection_pair, pending, accepted, now_connected,
  connect_pair, respond_row, is_pending, connection_of, is_blocked_between, has_connection_id,
  lists_request, refuses,
}
use trip2world.Social.Steps.{
  SocialCall, social_call, social_run, same_pair, written, send_keeps, respond_keeps, sends,
  answers, removes, blocks_user, unblocks_user, changes_person,
}

-- Whether a call lifts a block between two users.
abbrev pub lifts : ℕ → ℕ → SocialCall → Bool
lifts x y (unblocks_user u target) = same_pair x y u target
lifts x y _ = false

-- Two users with a block between them who are not connected.
unfoldable pub Apart : ℕ → ℕ → SocialDb → Type 0
Apart x y db = (are_connected x y db ≡ false) × (is_blocked_between x y db ≡ true)

module _ (x y : ℕ) where
  linked-Apart :
      (now u w : ℕ) (m : Option ℕ) (db : SocialDb)
      → is_blocked_between u w db ≡ false
      → Apart x y db
      → Apart x y (connect_pair u w m (respond_row now w u accepted db))
  unfolding Apart are_connected is_blocked_between
  linked-Apart now u w m db free (apart, block) =
      elim (Bool-cases (is_some (connection_of u w db))) [
        | inl kept ↦ rw kept (apart, block)
        | inr fresh ↦ rw fresh (
          ground (
            arith,
            apart,
            block,
            free,
            written db.connections x y u w
                (some (record { connection_id = db.next_row; origin_match = m })),
          ),
          block,
        )
      ]

  block_kept :
      (u target : ℕ) (rows : List BlockRow)
      → (x == u && y == target) ≡ false
      → any (is_block x y) (filter (λ r. not (is_block u target r)) rows) ≡ any (is_block x y) rows
  block_kept u target [] e = refl
  block_kept u target (r ∷ rows) e = ground (arith, e, block_kept u target rows e)

  block_added :
      (u target : ℕ) (rows : List BlockRow)
      → any (is_block x y) rows ≡ true
      → any (is_block x y) (upsert_block u target rows) ≡ true
  unfolding upsert_block
  block_added u target rows e = ground (arith, e)

module _ (x y : ℕ) where
  removed-Apart :
      (u w id : ℕ) (db : SocialDb) → Apart x y db → Apart x y (remove_connection u w id db).1
  unfolding Apart are_connected is_blocked_between remove_connection
  removed-Apart u w id db (apart, block) =
      elim (Bool-cases (has_connection_id id (connection_of u w db))) [
        | inl found ↦ rw found (ground (arith, apart, written db.connections x y u w none), block)
        | inr missing ↦ rw missing (apart, block)
      ]

  call-Apart :
      (c : SocialCall) (db : SocialDb)
      → lifts x y c ≡ false
      → Apart x y db
      → Apart x y (social_call c db)
  unfolding social_call Apart are_connected is_blocked_between create_block remove_block
  call-Apart (sends now u d) db other inv =
      send_keeps (Apart x y) (λ n v w m b e f i. linked-Apart x y n v w m b f i) (λ n v w b e i. i)
        (λ n v r b e i. i) now u d db inv
  call-Apart (answers now u w id accept) db other inv =
      respond_keeps (Apart x y) (λ n v w m b e f i. linked-Apart x y n v w m b f i)
        (λ n v w b e i. i) (λ n v r b e i. i) now u w id accept db inv
  call-Apart (removes u partner id) db other inv = removed-Apart u partner id db inv
  call-Apart (blocks_user u target) db other (apart, block) = (
    ground (arith, apart),
    ground (
      arith,
      block,
      block_added x y u target db.block_rows,
      block_added y x u target db.block_rows,
    ),
  )
  call-Apart (unblocks_user u target) db other (apart, block) = (
    apart,
    ground (
      arith,
      other,
      block,
      block_kept x y u target db.block_rows,
      block_kept y x u target db.block_rows,
    ),
  )
  call-Apart (changes_person u p) db other inv = inv

-- Two users with a block between them who are not connected stay so through any run of calls of anyone in
-- which neither lifts a block of the other: neither asking, nor answering a request from before the
-- block, connects them.
pub social_run-Apart :
    (x y : ℕ) (calls : List SocialCall) (db : SocialDb)
    → any (lifts x y) calls ≡ false
    → Apart x y db
    → Apart x y (social_run calls db)
unfolding social_run
social_run-Apart x y [] db other inv = inv
social_run-Apart x y (c ∷ calls) db other inv =
    social_run-Apart x y calls (social_call c db) (ground (arith, other))
      (call-Apart x y c db (ground (arith, other)) inv)

linked_connects :
    (u w : ℕ) (m : Option ℕ) (db : SocialDb) → are_connected u w (connect_pair u w m db) ≡ true
unfolding are_connected
linked_connects u w m db = elim (Bool-cases (is_some (connection_of u w db))) [
  | inl kept ↦ rw kept kept
  | inr fresh ↦
      rw (fresh, ==_refl (order_connection_pair u w).0, ==_refl (order_connection_pair u w).1) refl
]

-- A request that has lapsed is shown no more to whom it was sent, but when that user asks in turn, the
-- two are connected at once, however long ago it lapsed.
-- Assumed: the two are different users, not connected and with no block between them, and the sender of
-- the lapsed request is active and does not refuse requests.
pub lapsed_connects :
    (now u : ℕ) (d : RequestInput) (r : ConnectionRequest) (p : Person) (ends_at : ℕ)
    (db : SocialDb)
    → d.asked_user ≢ u
    → db.requests d.asked_user u ≡ some r
    → r.request_status ≡ pending
    → r.request_expires_at ≡ some ends_at
    → ends_at ≤ now
    → db.people d.asked_user ≡ some p
    → p.is_active ≡ true
    → refuses p.allow_requests ≡ false
    → is_blocked_between u d.asked_user db ≡ false
    → are_connected u d.asked_user db ≡ false
    → (lists_request now u d.asked_user db ≡ false)
      × ((send_request now u d db).0 ≡ now_connected)
      × (are_connected u d.asked_user (send_request now u d db).1 ≡ true)
unfolding lists_request send_request
lapsed_connects now u d r p ends_at db two row waits ends past person active open_to free apart =
    let other : (d.asked_user == u) ≡ false = ground (arith, two) in
    let over : ltb now ends_at ≡ false = ground (arith, past) in
    let waiting : is_pending (db.requests d.asked_user u) ≡ true = rw (row, waits) refl in
    (
      rw (row, waits, ends, over) refl,
      rw (other, person, active, free, open_to, apart, waiting) refl,
      rw (other, person, active, free, open_to, apart, waiting)
          (linked_connects u d.asked_user d.from_match
            (respond_row now d.asked_user u accepted db)),
    )
