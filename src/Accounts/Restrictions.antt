-- ===== src/Accounts/Restrictions.antt =====
-- `getActiveRestriction` of packages/database/src/queries.ts: the restriction in force, expired ones
-- lifted on the way.
use trip2world.Accounts.Decisions.{lift}
use trip2world.Accounts.Types.{
  suspension, suspended, banned, Ban, ModerationActionType, ModerationAction, AccountStatus, User,
  AccountDb, update_user, active,
}
use trip2world.Prelude.{
  ℕ, Bool, true, false, not, ◌&&◌, Option, none, some, List, [], ◌∷◌, map, leb, ◌==◌, if◌then◌else◌,
  is_some, Text, codes,
}

pub record Restriction : Type 0 where
  pub by_ban : Bool
  pub restriction_reason : Text
  pub restricted_until : Option ℕ

-- `findFirst` by creation, newest first.
unfoldable pub latest_ban : ℕ → List Ban → Option Ban
latest_ban id [] = none
latest_ban id (b ∷ bans) =
    if b.banned_user == id && not (is_some b.lifted_at) then some b else latest_ban id bans

abbrev pub is_suspension : ModerationActionType → Bool
is_suspension suspension = true
is_suspension _ = false

unfoldable pub latest_suspension : ℕ → List ModerationAction → Option ModerationAction
latest_suspension id [] = none
latest_suspension id (a ∷ actions) =
    if a.target_user == id && is_suspension a.type_of then some a else latest_suspension id actions

-- A time that is set and not after now.
abbrev pub passed : ℕ → Option ℕ → Bool
passed now none = false
passed now (some t) = leb t now

abbrev pub set_status : AccountStatus → User → User
set_status st u = record u { status = st }

unfoldable pub banned_restriction : ℕ → ℕ → Option Ban → AccountDb → Option Restriction × AccountDb
banned_restriction now id none db = (
  some (record {
    by_ban = true;
    restriction_reason = codes "Your account has been permanently restricted.";
    restricted_until = none;
  }),
  db,
)
banned_restriction now id (some b) db =
    if not b.permanent && passed now b.ban_expires_at
    then (
      none,
      update_user id (set_status active) (record db { bans = map (lift id now none) db.bans }),
    )
    else (
      some (record {
        by_ban = true;
        restriction_reason = b.ban_reason;
        restricted_until = b.ban_expires_at;
      }),
      db,
    )

unfoldable pub suspended_restriction :
    ℕ → ℕ → Option ModerationAction → AccountDb → Option Restriction × AccountDb
suspended_restriction now id none db = (
  some (record {
    by_ban = false;
    restriction_reason = codes "Your account is temporarily restricted.";
    restricted_until = none;
  }),
  db,
)
suspended_restriction now id (some a) db =
    if passed now a.action_expires_at then (none, update_user id (set_status active) db) else (
      some (record {
        by_ban = false;
        restriction_reason = a.reason;
        restricted_until = a.action_expires_at;
      }),
      db,
    )

unfoldable pub restriction_by : ℕ → ℕ → AccountStatus → AccountDb → Option Restriction × AccountDb
restriction_by now id banned db = banned_restriction now id (latest_ban id db.bans) db
restriction_by now id suspended db =
    suspended_restriction now id (latest_suspension id db.actions) db
restriction_by now id _ db = (none, db)

unfoldable pub restriction_of : ℕ → ℕ → Option User → AccountDb → Option Restriction × AccountDb
restriction_of now id none db = (none, db)
restriction_of now id (some u) db = restriction_by now id u.status db

unfoldable pub get_active_restriction : ℕ → ℕ → AccountDb → Option Restriction × AccountDb
get_active_restriction now id db = restriction_of now id (db.users id) db
