-- ===== src/Social/Connections.antt =====
-- The handlers of the routes for connection requests, connections and blocks, with orderConnectionPair,
-- areConnected and isBlockedBetween of packages/database/src/queries.ts. A request is unique for its two
-- users in their order, and a connection for its pair, so the tables are functions of the two; an id is
-- given with the user by whom its row is found. A payload comes as its schema has parsed it.
use trip2world.Prelude.{
  ℕ, suc, ◌+◌, ◌*◌, Bool, true, false, not, ◌&&◌, ◌||◌, Option, none, some, List, ltb, ◌==◌,
  if◌then◌else◌, is_some, filter, any, Text,
}
use trip2world.Realtime.Hub.{BlockRow}
use trip2world.Realtime.Safety.{is_block, upsert_block}

pub data ConnectionRequestStatus : Type 0 where
  pending accepted declined cancelled expired : ConnectionRequestStatus

pub record ConnectionRequest : Type 0 where
  pub request_id : ℕ
  pub request_status : ConnectionRequestStatus
  pub request_message : Option Text
  pub request_match : Option ℕ
  pub responded_at : Option ℕ
  pub request_expires_at : Option ℕ

pub record Connection : Type 0 where
  pub connection_id : ℕ
  pub origin_match : Option ℕ

-- A user that is not deleted: whether the status is ACTIVE, and the setting of its privacy row, if there
-- is one.
pub record Person : Type 0 where
  pub is_active : Bool
  pub allow_requests : Option Bool

pub record SocialDb : Type 0 where
  pub people : ℕ → Option Person
  pub requests : ℕ → ℕ → Option ConnectionRequest
  pub connections : ℕ → ℕ → Option Connection
  pub block_rows : List BlockRow
  pub next_row : ℕ

pub data Denial : Type 0 where
  with_yourself no_such_user not_accepting already_connected no_such_request no_such_connection :
      Denial

pub data Answered : Type 0 where
  denied : Denial → Answered
  now_connected now_pending now_declined removed is_blocked unblocked : Answered

abbrev pub Response : Type 0
Response = Answered × SocialDb

-- A write to one cell of a table of two keys.
abbrev pub at_pair : {A : Type 0} → (ℕ → ℕ → A) → ℕ → ℕ → A → ℕ → ℕ → A
at_pair f a b x i k = if (i == a) && (k == b) then x else f i k

unfoldable pub order_connection_pair : ℕ → ℕ → ℕ × ℕ
order_connection_pair a b = if ltb a b then (a, b) else (b, a)

abbrev pub connection_of : ℕ → ℕ → SocialDb → Option Connection
connection_of a b db = db.connections (order_connection_pair a b).0 (order_connection_pair a b).1

unfoldable pub are_connected : ℕ → ℕ → SocialDb → Bool
are_connected a b db = is_some (connection_of a b db)

unfoldable pub is_blocked_between : ℕ → ℕ → SocialDb → Bool
is_blocked_between a b db = any (is_block a b) db.block_rows || any (is_block b a) db.block_rows

abbrev pub is_pending : Option ConnectionRequest → Bool
is_pending none = false
is_pending (some r) = elim (r.request_status) [
  | pending ↦ true
  | accepted ↦ false
  | declined ↦ false
  | cancelled ↦ false
  | expired ↦ false
]

abbrev set_request : ℕ → ℕ → ConnectionRequest → SocialDb → SocialDb
set_request a b r db = record db { requests = at_pair db.requests a b (some r) }

abbrev answer_with :
    ℕ → ConnectionRequestStatus → Option ConnectionRequest → Option ConnectionRequest
answer_with now st none = none
answer_with now st (some r) = some (record r { request_status = st; responded_at = some now })

-- `connectionRequest.update` of the row from one user to another.
abbrev pub respond_row : ℕ → ℕ → ℕ → ConnectionRequestStatus → SocialDb → SocialDb
respond_row now a b st db = record db {
  requests = at_pair db.requests a b (answer_with now st (db.requests a b));
}

-- A new row for the pair; `upsert` with an empty update keeps one that is there.
abbrev pub connect_pair : ℕ → ℕ → Option ℕ → SocialDb → SocialDb
connect_pair a b match_id db =
    let (first, second) = order_connection_pair a b in
    if is_some (db.connections first second) then db else record db {
      connections =
          at_pair db.connections first second
            (some (record { connection_id = db.next_row; origin_match = match_id }));
      next_row = suc db.next_row;
    }

pub record RequestInput : Type 0 where
  pub asked_user : ℕ
  pub from_match : Option ℕ
  pub note : Option Text

-- The update keeps the id of a row that is there.
abbrev request_row : ℕ → RequestInput → Option ConnectionRequest → ℕ → ConnectionRequest
request_row now d before fresh = record {
  request_id = elim before [ none ↦ fresh | some r ↦ r.request_id ];
  request_status = pending;
  request_message = d.note;
  request_match = d.from_match;
  responded_at = none;
  request_expires_at = some (now + 14 * 86400000);
}

abbrev pub refuses : Option Bool → Bool
refuses none = false
refuses (some allowed) = not allowed

abbrev pub put_request : ℕ → ℕ → RequestInput → SocialDb → SocialDb
put_request now u d db =
    record (set_request u d.asked_user (request_row now d (db.requests u d.asked_user) db.next_row)
      db) { next_row = suc db.next_row }

-- The route from where its target is found, active and not blocked.
abbrev pub send_to : ℕ → ℕ → RequestInput → Person → SocialDb → Response
send_to now u d target db =
    if refuses target.allow_requests
    then (denied not_accepting, db)
    else (if are_connected u d.asked_user db
        then (denied already_connected, db)
        else (if is_pending (db.requests d.asked_user u)
            then (
              now_connected,
              connect_pair u d.asked_user d.from_match (respond_row now d.asked_user u accepted db),
            )
            else (now_pending, put_request now u d db)))

abbrev pub with_target : ℕ → ℕ → RequestInput → Option Person → SocialDb → Response
with_target now u d none db = (denied no_such_user, db)
with_target now u d (some target) db =
    if not target.is_active || is_blocked_between u d.asked_user db
    then (denied no_such_user, db)
    else send_to now u d target db

unfoldable pub send_request : ℕ → ℕ → RequestInput → SocialDb → Response
send_request now u d db =
    if d.asked_user == u
    then (denied with_yourself, db)
    else with_target now u d (db.people d.asked_user) db

-- Whether the list of a user's requests can show the one from another.
abbrev runs_on : ℕ → Option ℕ → Bool
runs_on now none = true
runs_on now (some t) = ltb now t

abbrev shown_row : ℕ → Option ConnectionRequest → Bool
shown_row now none = false
shown_row now (some r) = is_pending (some r) && runs_on now r.request_expires_at

unfoldable pub lists_request : ℕ → ℕ → ℕ → SocialDb → Bool
lists_request now u from_user db = shown_row now (db.requests from_user u)

abbrev pub has_id : ℕ → Option ConnectionRequest → Bool
has_id id none = false
has_id id (some r) = r.request_id == id

abbrev pub match_in : Option ConnectionRequest → Option ℕ
match_in none = none
match_in (some r) = r.request_match

-- `from_user` is the user whose request has that id.
unfoldable pub respond : ℕ → ℕ → ℕ → ℕ → Bool → SocialDb → Response
respond now u from_user id accept db =
    let row = db.requests from_user u in
    if not (has_id id row && is_pending row)
    then (denied no_such_request, db)
    else (if not accept
        then (now_declined, respond_row now from_user u declined db)
        else (if is_blocked_between u from_user db
            then (denied no_such_request, respond_row now from_user u declined db)
            else (
              now_connected,
              connect_pair u from_user (match_in row) (respond_row now from_user u accepted db),
            )))

abbrev pub has_connection_id : ℕ → Option Connection → Bool
has_connection_id id none = false
has_connection_id id (some c) = c.connection_id == id

-- `partner` is the other user of the connection with that id.
unfoldable pub remove_connection : ℕ → ℕ → ℕ → SocialDb → Response
remove_connection u partner id db =
    let (first, second) = order_connection_pair u partner in
    if not (has_connection_id id (db.connections first second))
    then (denied no_such_connection, db)
    else (
      removed,
      record db {
        connections = at_pair db.connections first second none;
        requests = at_pair (at_pair db.requests u partner none) partner u none;
      },
    )

unfoldable pub create_block : ℕ → ℕ → SocialDb → Response
create_block u target db =
    if target == u
    then (denied with_yourself, db)
    else (if not (is_some (db.people target))
        then (denied no_such_user, db)
        else (is_blocked, record db { block_rows = upsert_block u target db.block_rows }))

unfoldable pub remove_block : ℕ → ℕ → SocialDb → Response
remove_block u target db =
    (unblocked, record db { block_rows = filter (λ r. not (is_block u target r)) db.block_rows })
