-- ===== src/Accounts/Verdicts.antt =====
-- The decision on a report that restricts its target.
use trip2world.Prelude.{
  ℕ, ◌+◌, ◌*◌, ◌≡◌, sym, subst, Bool, true, none, some, [], arith, if◌then◌else◌, get_or,
}
use trip2world.Accounts.Eviction.{Shut, suspend-Shut, ban-Shut, audit-Shut, actionable_row}
use trip2world.Accounts.Writes.{written_db, guarded_ok, middle_of}
use trip2world.Accounts.Moderation.{Site, Moderator, assert_actionable, evict}
use trip2world.Accounts.Decisions.{
  decide, apply_decision, restricts, resolve_written, resolve_done, resolve_error, resolve_found,
  resolve, close_report, ResolveInput, ReportDecision, dismiss, warn_user, suspend_user, ban_user,
  Weather, ban_error, is_ban, is_resolved, audit_of,
}
use trip2world.Accounts.Types.{AccountDb, User, Report, ok, conflict}

decide-Shut :
    (d : ReportDecision) (now : ℕ) (input : ResolveInput) (target who : ℕ) (db : AccountDb)
    (u : User)
    → restricts d ≡ true
    → db.users target ≡ some u
    → Shut target (decide d now input target who db)
unfolding decide
decide-Shut dismiss now input target who db u r e = absurd (ground (arith, r))
decide-Shut warn_user now input target who db u r e = absurd (ground (arith, r))
decide-Shut suspend_user now input target who db u r e =
    suspend-Shut now target who (get_or input.decision_reason []) input.decision_notes
      (now + input.suspension_hours * 3600000) db u e
decide-Shut ban_user now input target who db u r e =
    ban-Shut now target who (get_or input.decision_reason []) input.decision_notes db u e

evicted-Shut :
    (redis_up : Bool) (target : ℕ) (restricting : Bool) (s : Site)
    → Shut target s.db
    → Shut target (if restricting then evict redis_up target s else s).db
evicted-Shut redis_up target restricting s h =
    subst (Shut target) (sym (written_db restricting redis_up target s)) h

found-Shut :
    (up : Weather) (now : ℕ) (input : ResolveInput) (m : Moderator) (r : Report) (s : Site)
    → restricts input.decision ≡ true
    → (resolve_found up now input m (some r) s).0 ≡ ok tt
    → Shut r.reported_user (resolve_found up now input m (some r) s).1.db
unfolding resolve_found resolve_error resolve_done apply_decision assert_actionable
found-Shut up now input m r s restricting done =
    let t = r.reported_user in
    let (passes, same) =
      guarded_ok (resolve_error input m r s.db) (resolve_done up now input m r s) s done in
    let (u, e) = actionable_row (s.db.users t) t m.id_of (
      middle_of (if is_resolved r.report_status then some conflict else none)
        (assert_actionable t m.id_of s.db) (ban_error (is_ban input.decision) m.role_of) passes) in
    let written =
      decide-Shut input.decision now input t m.id_of (close_report now input m.id_of r s.db) u
        restricting e in
    rw same (
      audit-Shut up.audit_up now (some m.id_of) (audit_of input.decision) (some t) t
        (if restricts input.decision
          then evict up.redis_up t (resolve_written now input m r s)
          else resolve_written now input m r s).db
        (evicted-Shut up.redis_up t (restricts input.decision) (resolve_written now input m r s)
          written))

-- A suspension or a ban on a report that is answered with success shuts the reported user out, at both
-- gates, at the revalidation of a socket, and with no session left open.
pub resolve-Shut :
    (up : Weather) (now : ℕ) (input : ResolveInput) (m : Moderator) (r : Report) (s : Site)
    → s.db.reports input.report_id ≡ some r
    → restricts input.decision ≡ true
    → (resolve up now input m s).0 ≡ ok tt
    → Shut r.reported_user (resolve up now input m s).1.db
unfolding resolve
resolve-Shut up now input m r s e restricting = rw e (found-Shut up now input m r s restricting)
