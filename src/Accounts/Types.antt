-- ===== src/Accounts/Types.antt =====
-- The tables about an account, the errors of the services, and what a call comes to. Ids, hashes and
-- passwords are numbers. A table is a function of the id or a list of rows, newest first.
use trip2world.Prelude.{
  ℕ, Bool, true, false, not, ◌&&◌, Option, none, some, List, ◌∷◌, map, ◌==◌, if◌then◌else◌, is_some,
  Text, at_key,
}

pub data AccountStatus : Type 0 where
  pending_verification active suspended banned deactivated : AccountStatus

pub data UserRole : Type 0 where
  user moderator admin super_admin : UserRole

pub record User : Type 0 where
  pub role : UserRole
  pub status : AccountStatus
  pub email : ℕ
  pub username : Text
  pub email_verified : Bool
  pub email_verified_at : Option ℕ
  pub password_hash : Option ℕ
  pub token_generation : ℕ
  pub failed_login_attempts : ℕ
  pub locked_until : Option ℕ
  pub last_login_at : Option ℕ
  pub last_ip_hash : Option ℕ
  pub deletion_requested_at : Option ℕ
  pub deleted_at : Option ℕ

pub data RevokedReason : Type 0 where
  for_suspension for_ban for_reuse for_restriction for_logout for_reset for_change for_deletion :
      RevokedReason

pub record Session : Type 0 where
  pub session_id : ℕ
  pub session_user : ℕ
  pub refresh_token_hash : ℕ
  pub rotation_counter : ℕ
  pub session_expires_at : ℕ
  pub last_used_at : ℕ
  pub revoked_at : Option ℕ
  pub revoked_reason : Option RevokedReason
  pub user_agent : Option Text
  pub session_ip_hash : ℕ

pub data TokenKind : Type 0 where
  email_verification password_reset : TokenKind

pub record VerificationToken : Type 0 where
  pub token_user : ℕ
  pub kind : TokenKind
  pub token_hash : ℕ
  pub token_expires_at : ℕ
  pub consumed_at : Option ℕ

pub data ModerationActionType : Type 0 where
  warning suspension ban_action unban dismiss_report : ModerationActionType

pub record ModerationAction : Type 0 where
  pub target_user : ℕ
  pub moderator_id : Option ℕ
  pub type_of : ModerationActionType
  pub reason : Text
  pub notes : Option Text
  pub action_expires_at : Option ℕ

pub record Ban : Type 0 where
  pub ban_id : ℕ
  pub banned_user : ℕ
  pub issued_by : Option ℕ
  pub ban_reason : Text
  pub permanent : Bool
  pub ban_expires_at : Option ℕ
  pub lifted_at : Option ℕ
  pub lifted_by : Option ℕ

pub data ReportStatus : Type 0 where
  report_pending under_review actioned dismissed : ReportStatus

pub data ReportCategory : Type 0 where
  nudity harassment hate underage_report violence spam scam impersonation other_category :
      ReportCategory

pub record Report : Type 0 where
  pub reporter : Option ℕ
  pub reported_user : ℕ
  pub category : ReportCategory
  pub report_status : ReportStatus
  pub reported_at : ℕ
  pub reviewed_by : Option ℕ
  pub reviewed_at : Option ℕ
  pub moderator_notes : Option Text

pub data AuditAction : Type 0 where
  report_dismissed report_warned report_suspended report_banned : AuditAction
  user_warned user_suspended user_banned user_reinstated : AuditAction
  registered logged_in email_confirmed password_was_reset password_changed : AuditAction
  deletion_requested account_erased suspensions_expired : AuditAction

pub record AuditEntry : Type 0 where
  pub actor : Option ℕ
  pub action : AuditAction
  pub subject : Option ℕ
  pub written_at : ℕ

pub record AccountDb : Type 0 where
  pub users : ℕ → Option User
  pub sessions : List Session
  pub tokens : List VerificationToken
  pub actions : List ModerationAction
  pub bans : List Ban
  pub reports : ℕ → Option Report
  pub audits : List AuditEntry
  pub next_ban_id : ℕ

-- The errors of apps/api/src/errors.ts that the services throw.
pub data ApiError : Type 0 where
  not_found forbidden conflict : ApiError
  invalid_credentials token_invalid token_expired account_banned account_suspended : ApiError
  rate_limited underage unsupported_country registration_closed : ApiError

pub data Reply (A : Type 0) : Type 0 where
  ok : A → Reply A
  refused : ApiError → Reply A

abbrev pub is_ok : {A : Type 0} → Reply A → Bool
is_ok (ok a) = true
is_ok (refused e) = false

abbrev pub status_eq : AccountStatus → AccountStatus → Bool
status_eq pending_verification pending_verification = true
status_eq active active = true
status_eq suspended suspended = true
status_eq banned banned = true
status_eq deactivated deactivated = true
status_eq _ _ = false

-- `findFirst({ where: { id, deletedAt: null } })`
abbrev pub living : Option User → Option User
living none = none
living (some u) = if is_some u.deleted_at then none else some u

-- `prisma.user.update`, which the callers make only on a row that they have read.
abbrev pub on_user : (User → User) → Option User → Option User
on_user f none = none
on_user f (some u) = some (f u)

abbrev pub update_user : ℕ → (User → User) → AccountDb → AccountDb
update_user id f db = record db { users = at_key db.users id (on_user f (db.users id)) }

-- `session.updateMany` on the open sessions of a user.
abbrev pub revoke : ℕ → RevokedReason → Session → Session
revoke now why s = record s { revoked_at = some now; revoked_reason = some why }

abbrev pub is_open_of : ℕ → Session → Bool
is_open_of id s = s.session_user == id && not (is_some s.revoked_at)

abbrev pub revoke_sessions : ℕ → ℕ → RevokedReason → AccountDb → AccountDb
revoke_sessions id now why db = record db {
  sessions = map (λ s. if is_open_of id s then revoke now why s else s) db.sessions;
}

-- A write to the audit log; one that fails is logged and does not fail the call.
abbrev pub audit : Bool → ℕ → Option ℕ → AuditAction → Option ℕ → AccountDb → AccountDb
audit up now who what subject_id db =
    if up
    then record db {
      audits =
          record { actor = who; action = what; subject = subject_id; written_at = now } ∷ db.audits;
    }
    else db
