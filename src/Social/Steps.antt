-- ===== src/Social/Steps.antt =====
-- The calls of the routes in any order, and what one of them keeps.
use trip2world.Prelude.{
  ℕ, ◌≡◌, refl, Bool, true, false, not, ◌&&◌, ◌||◌, Option, none, some, List, [], ◌∷◌, arith, ◌==◌,
  if◌then◌else◌, at_key,
}
use trip2world.Social.Connections.{
  SocialDb, Person, Connection, RequestInput, Response, send_request, respond, remove_connection,
  create_block, remove_block, are_connected, order_connection_pair, at_pair, accepted, declined,
  connect_pair, respond_row, put_request, is_pending, send_to, with_target, match_in, has_id,
  is_blocked_between, refuses,
}

pub data SocialCall : Type 0 where
  sends : ℕ → ℕ → RequestInput → SocialCall
  answers : ℕ → ℕ → ℕ → ℕ → Bool → SocialCall
  removes : ℕ → ℕ → ℕ → SocialCall
  blocks_user unblocks_user : ℕ → ℕ → SocialCall
  changes_person : ℕ → Option Person → SocialCall

unfoldable pub social_call : SocialCall → SocialDb → SocialDb
social_call (sends now u d) db = (send_request now u d db).1
social_call (answers now u from_user id accept) db = (respond now u from_user id accept db).1
social_call (removes u partner id) db = (remove_connection u partner id db).1
social_call (blocks_user u target) db = (create_block u target db).1
social_call (unblocks_user u target) db = (remove_block u target db).1
social_call (changes_person u p) db = record db { people = at_key db.people u p }

unfoldable pub social_run : List SocialCall → SocialDb → SocialDb
social_run [] db = db
social_run (c ∷ calls) db = social_run calls (social_call c db)

abbrev pub same_pair : ℕ → ℕ → ℕ → ℕ → Bool
same_pair x y u v = (x == u && y == v) || (x == v && y == u)

pub written :
    (f : ℕ → ℕ → Option Connection) (x y u v : ℕ) (c : Option Connection)
    → let (a, b) = order_connection_pair u v in
      let (i, k) = order_connection_pair x y in
      at_pair f a b c i k ≡ (if same_pair x y u v then c else f i k)
unfolding order_connection_pair
written f x y u v c = ground arith

-- What a request and an answer keep, from what their three writes keep.
module _ (P : SocialDb → Type 0)
    (links : (now u w : ℕ) (m : Option ℕ) (db : SocialDb)
      → is_pending (db.requests w u) ≡ true
      → is_blocked_between u w db ≡ false
      → P db
      → P (connect_pair u w m (respond_row now w u accepted db)))
    (declines : (now u w : ℕ) (db : SocialDb)
      → is_pending (db.requests w u) ≡ true
      → P db
      → P (respond_row now w u declined db))
    (asks : (now u : ℕ) (d : RequestInput) (db : SocialDb)
      → are_connected u d.asked_user db ≡ false
      → P db
      → P (put_request now u d db)) where
  branch :
      (b : Bool) (x y : Response)
      → (b ≡ true → P x.1)
      → (b ≡ false → P y.1)
      → P (if b then x else y).1
  branch true x y p q = p refl
  branch false x y p q = q refl

  pub send_keeps :
      (now u : ℕ) (d : RequestInput) (db : SocialDb) → P db → P (send_request now u d db).1
  unfolding send_request
  send_keeps now u d db inv =
      branch (d.asked_user == u) _ _ (λ e. inv) (λ e. by_target (db.people d.asked_user))
    where
      asked :
          (p : Person) → is_blocked_between u d.asked_user db ≡ false → P (send_to now u d p db).1
      asked p free =
          branch (refuses p.allow_requests) _ _ (λ e. inv)
            (λ e.
              branch (are_connected u d.asked_user db) _ _ (λ f. inv)
                (λ f.
                  branch (is_pending (db.requests d.asked_user u)) _ _
                    (λ g. links now u d.asked_user d.from_match db g free inv)
                    (λ g. asks now u d db f inv)))

      by_target : (o : Option Person) → P (with_target now u d o db).1
      by_target none = inv
      by_target (some p) =
          branch (not p.is_active || is_blocked_between u d.asked_user db) _ _ (λ e. inv)
            (λ e. asked p (ground (arith, e)))

  pub respond_keeps :
      (now u w id : ℕ) (accept : Bool) (db : SocialDb) → P db → P (respond now u w id accept db).1
  unfolding respond
  respond_keeps now u w id accept db inv =
      branch (not (has_id id (db.requests w u) && is_pending (db.requests w u))) _ _ (λ e. inv)
        (λ e.
          branch (not accept) _ _ (λ f. declines now u w db (ground (arith, e)) inv)
            (λ f.
              branch (is_blocked_between u w db) _ _
                (λ g. declines now u w db (ground (arith, e)) inv)
                (λ g. links now u w (match_in (db.requests w u)) db (ground (arith, e)) g inv)))
