-- ===== src/Accounts/Moderation.antt =====
-- ModerationService: the guards, and what a moderator's call writes. `up` is whether the audit log takes
-- a write; Redis is beside the database, as the record Store of the queue.
use trip2world.Queue.Store.{Store}
use trip2world.Accounts.Types.{
  user, admin, super_admin, report_pending, suspended, banned, AccountDb, UserRole, User,
  ModerationAction, ModerationActionType, Reply, Report, AccountStatus, ApiError, refused,
  revoke_sessions, living, not_found, ok, conflict, for_suspension, for_ban, warning, forbidden,
  update_user, audit, under_review, suspension, ban_action, user_warned, ReportStatus,
}
use trip2world.Prelude.{
  ℕ, suc, Bool, true, false, Option, none, some, ◌∷◌, ◌==◌, if◌then◌else◌, Text, at_key,
}

-- The account database, Redis, and the presence hashes of the users.
pub record Site : Type 0 where
  pub db : AccountDb
  pub redis : Store
  pub present : ℕ → Bool

abbrev pub on_db : (AccountDb → AccountDb) → Site → Site
on_db f s = record s { db = f s.db }

-- Who acts: the caller of a route, with the role of the access token.
pub record Moderator : Type 0 where
  pub id_of : ℕ
  pub role_of : UserRole

abbrev pub is_staff : UserRole → Bool
is_staff user = false
is_staff _ = true

abbrev pub may_ban : UserRole → Bool
may_ban admin = true
may_ban super_admin = true
may_ban _ = false

-- `assertActionable`: the error, if there is one.
unfoldable pub actionable : Option User → ℕ → ℕ → Option ApiError
actionable none target moderator_id = some not_found
actionable (some u) target moderator_id =
    if target == moderator_id
    then some forbidden
    else (if is_staff u.role then some forbidden else none)

unfoldable pub assert_actionable : ℕ → ℕ → AccountDb → Option ApiError
assert_actionable target moderator_id db = actionable (living (db.users target)) target moderator_id

abbrev pub add_action : ModerationAction → AccountDb → AccountDb
add_action a db = record db { actions = a ∷ db.actions }

abbrev pub action_row :
    ℕ → ℕ → ModerationActionType → Text → Option Text → Option ℕ → ModerationAction
action_row target who what why note expires = record {
  target_user = target;
  moderator_id = some who;
  type_of = what;
  reason = why;
  notes = note;
  action_expires_at = expires;
}

pub record WarnInput : Type 0 where
  pub warn_target : ℕ
  pub warn_reason : Text
  pub warn_notes : Option Text

-- The first `throw` that is reached, and what a call comes to: its error with nothing written, or its
-- writes.
abbrev pub first_error : Option ApiError → Option ApiError → Option ApiError
first_error none next = next
first_error (some e) next = some e

abbrev pub guarded : Option ApiError → Site → Site → Reply (Unit {0}) × Site
guarded none done s = (ok tt, done)
guarded (some e) done s = (refused e, s)

abbrev pub warn_done : Bool → ℕ → WarnInput → Moderator → Site → Site
warn_done up now input m s =
    on_db
      (λ db. audit up now (some m.id_of) user_warned (some input.warn_target) (
        add_action
          (action_row input.warn_target m.id_of warning input.warn_reason input.warn_notes none)
          db))
      s

unfoldable pub warn : Bool → ℕ → WarnInput → Moderator → Site → Reply (Unit {0}) × Site
warn up now input m s =
    guarded (assert_actionable input.warn_target m.id_of s.db) (warn_done up now input m s) s

-- `updateMany` on a report that is pending.
abbrev pub is_pending : ReportStatus → Bool
is_pending report_pending = true
is_pending _ = false

unfoldable pub claim_report : Option Report → ℕ → ℕ → Site → Reply (Unit {0}) × Site
claim_report none id who s = (refused conflict, s)
claim_report (some r) id who s =
    guarded (if is_pending r.report_status then none else some conflict)
      (on_db
        (λ db. record db {
          reports =
              at_key db.reports id
                (some (record r { report_status = under_review; reviewed_by = some who }));
        })
        s)
      s

unfoldable pub claim : ℕ → Moderator → Site → Reply (Unit {0}) × Site
claim id m s = claim_report (s.db.reports id) id m.id_of s

-- The bump of the generation ends every access token of the account.
abbrev pub restrict : AccountStatus → User → User
restrict st u = record u { status = st; token_generation = suc u.token_generation }

-- The writes of a suspension until `expires`, and of a ban, in their transaction. The reason that is put
-- on the sessions is one for `resolve` and `resolveDirect`, which spell it differently.
unfoldable pub suspend : ℕ → ℕ → ℕ → Text → Option Text → ℕ → AccountDb → AccountDb
suspend now target who why note expires db = revoke_sessions target now for_suspension (
    update_user target (restrict suspended)
      (add_action (action_row target who suspension why note (some expires)) db))

abbrev pub add_ban : ℕ → ℕ → Text → AccountDb → AccountDb
add_ban target who why db = record db {
  bans =
      record {
        ban_id = db.next_ban_id;
        banned_user = target;
        issued_by = some who;
        ban_reason = why;
        permanent = true;
        ban_expires_at = none;
        lifted_at = none;
        lifted_by = none;
      }
      ∷ db.bans;
  next_ban_id = suc db.next_ban_id;
}

unfoldable pub ban : ℕ → ℕ → ℕ → Text → Option Text → AccountDb → AccountDb
ban now target who why note db = revoke_sessions target now for_ban (
    update_user target (restrict banned)
      (add_ban target who why (add_action (action_row target who ban_action why note none) db)))

-- The presence, the match and the snapshot of a restricted user; `redis_up` is whether Redis answers.
unfoldable pub evict : Bool → ℕ → Site → Site
evict redis_up target s =
    if redis_up
    then record s {
      present = at_key s.present target false;
      redis = record s.redis {
        user_match = at_key s.redis.user_match target none;
        entry = at_key s.redis.entry target none;
      };
    }
    else s
