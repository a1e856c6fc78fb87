-- ===== src/Accounts/Decisions.antt =====
-- What a moderator decides: `resolve` of a report, `resolveDirect` without one, and `reinstate`.
use trip2world.Accounts.Moderation.{
  add_action, Moderator, ban, action_row, Site, suspend, assert_actionable, on_db, may_ban, evict,
  guarded, first_error,
}
use trip2world.Accounts.Types.{
  actioned, dismissed, suspended, banned, AccountDb, User, Reply, Report, AccountStatus,
  ReportStatus, AuditAction, Ban, refused, report_dismissed, dismiss_report, active, unban, living,
  not_found, conflict, report_warned, warning, forbidden, update_user, audit, report_suspended,
  report_banned, user_banned, user_reinstated, user_suspended, UserRole, ApiError,
}
use trip2world.Prelude.{
  ℕ, ◌+◌, ◌*◌, Bool, true, false, not, ◌&&◌, Option, none, some, [], map, ◌==◌, if◌then◌else◌,
  is_some, get_or, Text, codes, at_key,
}

pub data ReportDecision : Type 0 where
  dismiss warn_user suspend_user ban_user : ReportDecision

pub record ResolveInput : Type 0 where
  pub report_id : ℕ
  pub decision : ReportDecision
  pub decision_reason : Option Text
  pub decision_notes : Option Text
  pub suspension_hours : ℕ

abbrev pub is_ban : ReportDecision → Bool
is_ban ban_user = true
is_ban _ = false

abbrev pub is_resolved : ReportStatus → Bool
is_resolved actioned = true
is_resolved dismissed = true
is_resolved _ = false

abbrev pub decided_status : ReportDecision → ReportStatus
decided_status dismiss = dismissed
decided_status _ = actioned

abbrev pub audit_of : ReportDecision → AuditAction
audit_of dismiss = report_dismissed
audit_of warn_user = report_warned
audit_of suspend_user = report_suspended
audit_of ban_user = report_banned

-- The schema asks for a reason of every decision but a dismissal, and for hours of a suspension.
unfoldable pub decide : ReportDecision → ℕ → ResolveInput → ℕ → ℕ → AccountDb → AccountDb
decide dismiss now input target who db =
    add_action
      (action_row target who dismiss_report
        (get_or input.decision_reason (codes "No violation found.")) input.decision_notes none)
      db
decide warn_user now input target who db =
    add_action
      (action_row target who warning (get_or input.decision_reason []) input.decision_notes none) db
decide suspend_user now input target who db =
    suspend now target who (get_or input.decision_reason []) input.decision_notes
      (now + input.suspension_hours * 3600000) db
decide ban_user now input target who db =
    ban now target who (get_or input.decision_reason []) input.decision_notes db

unfoldable pub apply_decision : ℕ → ResolveInput → ℕ → ℕ → AccountDb → AccountDb
apply_decision now input target who db = decide input.decision now input target who db

abbrev pub close_report : ℕ → ResolveInput → ℕ → Report → AccountDb → AccountDb
close_report now input who r db = record db {
  reports = at_key db.reports input.report_id (
      some (record r {
        report_status = decided_status input.decision;
        reviewed_by = some who;
        reviewed_at = some now;
        moderator_notes = input.decision_notes;
      }));
}

abbrev pub restricts : ReportDecision → Bool
restricts suspend_user = true
restricts ban_user = true
restricts _ = false

-- Whether each of the writes outside the transaction goes through.
pub record Weather : Type 0 where
  pub audit_up : Bool
  pub redis_up : Bool

-- `assertMayBan`, which is asked of a ban only.
abbrev pub ban_error : Bool → UserRole → Option ApiError
ban_error bans role = if bans && not (may_ban role) then some forbidden else none

unfoldable pub resolve_error : ResolveInput → Moderator → Report → AccountDb → Option ApiError
resolve_error input m r db =
    first_error (if is_resolved r.report_status then some conflict else none) (
      first_error (assert_actionable r.reported_user m.id_of db)
        (ban_error (is_ban input.decision) m.role_of))

-- The transaction.
abbrev pub resolve_written : ℕ → ResolveInput → Moderator → Report → Site → Site
resolve_written now input m r s =
    on_db
      (λ db. apply_decision now input r.reported_user m.id_of (close_report now input m.id_of r db))
      s

unfoldable pub resolve_done : Weather → ℕ → ResolveInput → Moderator → Report → Site → Site
resolve_done up now input m r s =
    on_db (audit up.audit_up now (some m.id_of) (audit_of input.decision) (some r.reported_user)) (
      if restricts input.decision
      then evict up.redis_up r.reported_user (resolve_written now input m r s)
      else resolve_written now input m r s)

unfoldable pub resolve_found :
    Weather → ℕ → ResolveInput → Moderator → Option Report → Site → Reply (Unit {0}) × Site
resolve_found up now input m none s = (refused not_found, s)
resolve_found up now input m (some r) s =
    guarded (resolve_error input m r s.db) (resolve_done up now input m r s) s

unfoldable pub resolve : Weather → ℕ → ResolveInput → Moderator → Site → Reply (Unit {0}) × Site
resolve up now input m s = resolve_found up now input m (s.db.reports input.report_id) s

pub record DirectInput : Type 0 where
  pub direct_target : ℕ
  pub direct_ban : Bool
  pub direct_reason : Text
  pub direct_notes : Option Text
  pub direct_hours : Option ℕ

unfoldable pub apply_direct : ℕ → DirectInput → ℕ → AccountDb → AccountDb
apply_direct now input who db =
    if input.direct_ban
    then ban now input.direct_target who input.direct_reason input.direct_notes db
    else suspend now input.direct_target who input.direct_reason input.direct_notes
        (now + get_or input.direct_hours 24 * 3600000) db

unfoldable pub direct_done : Weather → ℕ → DirectInput → Moderator → Site → Site
direct_done up now input m s =
    on_db
      (audit up.audit_up now (some m.id_of)
        (if input.direct_ban then user_banned else user_suspended) (some input.direct_target))
      (evict up.redis_up input.direct_target (on_db (apply_direct now input m.id_of) s))

unfoldable pub direct_error : DirectInput → Moderator → AccountDb → Option ApiError
direct_error input m db =
    first_error (assert_actionable input.direct_target m.id_of db)
      (ban_error input.direct_ban m.role_of)

unfoldable pub resolve_direct :
    Weather → ℕ → DirectInput → Moderator → Site → Reply (Unit {0}) × Site
resolve_direct up now input m s =
    guarded (direct_error input m s.db) (direct_done up now input m s) s

abbrev pub is_restricted : AccountStatus → Bool
is_restricted suspended = true
is_restricted banned = true
is_restricted _ = false

abbrev pub lift : ℕ → ℕ → Option ℕ → Ban → Ban
lift id now who b =
    if b.banned_user == id && not (is_some b.lifted_at)
    then record b { lifted_at = some now; lifted_by = who }
    else b

abbrev pub reactivate : User → User
reactivate u = if is_restricted u.status then record u { status = active } else u

-- The transaction of `reinstate`.
unfoldable pub lift_all : ℕ → ℕ → ℕ → Text → AccountDb → AccountDb
lift_all now target who why db =
    add_action (action_row target who unban why none none) (
      update_user target reactivate (record db { bans = map (lift target now (some who)) db.bans }))

unfoldable pub reinstate_found :
    Bool → ℕ → Option User → ℕ → Text → Moderator → Site → Reply (Unit {0}) × Site
reinstate_found up now none target why m s = (refused not_found, s)
reinstate_found up now (some u) target why m s =
    guarded (if is_restricted u.status then none else some conflict)
      (on_db
        (λ db.
          audit up now (some m.id_of) user_reinstated (some target)
            (lift_all now target m.id_of why db))
        s)
      s

unfoldable pub reinstate : Bool → ℕ → ℕ → Text → Moderator → Site → Reply (Unit {0}) × Site
reinstate up now target why m s = reinstate_found up now (living (s.db.users target)) target why m s
