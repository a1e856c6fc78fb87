-- ===== src/Accounts/Jobs.antt =====
-- The scheduled jobs of apps/worker/src/jobs.ts. `order` is the order in which the database returns the
-- users, which no query fixes. Each job is its reads followed by its writes, and these are apart, since
-- a moderator's call can come in between. What a job counts and logs is left out but for the count.
use trip2world.Accounts.Restrictions.{is_suspension, passed}
use trip2world.Pairing.Types.{error, MatchRow}
use trip2world.Accounts.Types.{
  suspended, banned, active, User, ModerationAction, AccountDb, Ban, Report, status_eq, on_user,
  audit, suspensions_expired, account_erased, AuditEntry,
}
use trip2world.Prelude.Dict.{Dict}
use trip2world.Prelude.{
  ℕ, ◌-◌, ◌*◌, Bool, true, false, not, ◌&&◌, ◌||◌, Option, none, some, List, [], ◌∷◌, map, ltb,
  ◌==◌, if◌then◌else◌, is_some, length, take, filter, any, includes, at_key,
}

-- BATCH_SIZE
abbrev pub batch_size : ℕ
batch_size = 200

abbrev pub on_row : (User → Bool) → Option User → Bool
on_row p none = false
on_row p (some u) = p u

abbrev pub is_suspended : User → Bool
is_suspended u = status_eq u.status suspended && not (is_some u.deleted_at)

-- A suspension of the user that is open-ended, or not over yet.
abbrev pub still_runs : ℕ → ℕ → ModerationAction → Bool
still_runs now id a =
    (a.target_user == id && is_suspension a.type_of)
    && (not (is_some a.action_expires_at) || not (passed now a.action_expires_at))

abbrev pub kept : ℕ → AccountDb → ℕ → Bool
kept now db id = any (still_runs now id) db.actions

-- The reads of `expireSuspensions`: whom it will restore.
unfoldable pub due_for_restore : ℕ → List ℕ → AccountDb → List ℕ
due_for_restore now order db =
    filter (λ id. not (kept now db id))
      (take batch_size (filter (λ id. on_row is_suspended (db.users id)) order))

abbrev pub restore : User → User
restore u = if status_eq u.status suspended then record u { status = active } else u

abbrev pub on_users : (ℕ → User → User) → AccountDb → AccountDb
on_users f db = record db { users = λ id. on_user (f id) (db.users id) }

-- How many of the ids `updateMany` restores.
abbrev pub restored_count : List ℕ → AccountDb → ℕ
restored_count ids db =
    length (filter (λ id. on_row (λ u. status_eq u.status suspended) (db.users id)) ids)

-- The writes, with the guard on the status.
unfoldable pub restore_due : ℕ → List ℕ → AccountDb → AccountDb
restore_due now ids db =
    audit (ltb 0 (restored_count ids db)) now none suspensions_expired none
      (on_users (λ id u. if includes ids id then restore u else u) db)

unfoldable pub expire_suspensions : ℕ → List ℕ → AccountDb → AccountDb
expire_suspensions now order db = restore_due now (due_for_restore now order db) db

abbrev pub has_run_out : ℕ → Ban → Bool
has_run_out now b = not (is_some b.lifted_at) && (not b.permanent && passed now b.ban_expires_at)

unfoldable pub expired_bans : ℕ → AccountDb → List Ban
expired_bans now db = take batch_size (filter (has_run_out now) db.bans)

abbrev pub holds_ban : List Ban → ℕ → Bool
holds_ban bans id = any (λ b. b.ban_id == id) bans

abbrev pub bans_user : List Ban → ℕ → Bool
bans_user bans id = any (λ b. b.banned_user == id) bans

-- An open ban of the user that is none of those that have run out.
abbrev pub other_open : List Ban → ℕ → Ban → Bool
other_open run_out id b =
    b.banned_user == id && (not (is_some b.lifted_at) && not (holds_ban run_out b.ban_id))

abbrev pub unban_row : List Ban → AccountDb → ℕ → User → User
unban_row run_out db id u =
    if (bans_user run_out id && status_eq u.status banned)
      && not (any (other_open run_out id) db.bans)
    then record u { status = active }
    else u

-- The transaction of `expireBans`.
unfoldable pub lift_run_out : ℕ → List Ban → AccountDb → AccountDb
lift_run_out now run_out db = on_users (unban_row run_out db) (record db {
  bans =
      map (λ b. if holds_ban run_out b.ban_id then record b { lifted_at = some now } else b)
        db.bans;
})

unfoldable pub expire_bans : ℕ → AccountDb → AccountDb
expire_bans now db = lift_run_out now (expired_bans now db) db

-- `deleteMany`.
abbrev pub delete_where : {A : Type 0} → (A → Bool) → List A → List A
delete_where p rows = filter (λ r. not (p r)) rows

-- A time that is set and before the cutoff.
abbrev pub set_before : ℕ → Option ℕ → Bool
set_before cutoff none = false
set_before cutoff (some t) = ltb t cutoff

abbrev pub day : ℕ
day = 86400000

unfoldable pub prune_verification_tokens : ℕ → AccountDb → AccountDb
prune_verification_tokens now db = record db {
  tokens =
      delete_where
        (λ t. ltb t.token_expires_at (now - 7 * day) || set_before (now - 7 * day) t.consumed_at)
        db.tokens;
}

unfoldable pub prune_sessions : ℕ → AccountDb → AccountDb
prune_sessions now db = record db {
  sessions =
      delete_where
        (λ s. ltb s.session_expires_at (now - 30 * day) || set_before (now - 30 * day) s.revoked_at)
        db.sessions;
}

unfoldable pub prune_audit_log : ℕ → ℕ → AccountDb → AccountDb
prune_audit_log now retention_days db = record db {
  audits = delete_where (λ a. ltb a.written_at (now - retention_days * day)) db.audits;
}

-- Rows that a deleted user leaves without their link.
abbrev pub forget : ℕ → Option ℕ → Option ℕ
forget id none = none
forget id (some k) = if k == id then none else some k

abbrev pub forget_report : ℕ → Option Report → Option Report
forget_report id none = none
forget_report id (some r) =
    if r.reported_user == id
    then none
    else some (record r { reporter = forget id r.reporter; reviewed_by = forget id r.reviewed_by })

-- `user.delete`, with what the schema deletes or detaches.
unfoldable pub delete_user : ℕ → AccountDb → AccountDb
delete_user id db = record db {
  users = at_key db.users id none;
  sessions = delete_where (λ s. s.session_user == id) db.sessions;
  tokens = delete_where (λ t. t.token_user == id) db.tokens;
  actions =
      map (λ (a : ModerationAction). record a { moderator_id = forget id a.moderator_id })
        (delete_where (λ a. a.target_user == id) db.actions);
  bans =
      map
        (λ (b : Ban). record b {
          issued_by = forget id b.issued_by;
          lifted_by = forget id b.lifted_by;
        })
        (delete_where (λ b. b.banned_user == id) db.bans);
  reports = λ k. forget_report id (db.reports k);
  audits = map (λ (a : AuditEntry). record a { actor = forget id a.actor }) db.audits;
}

abbrev pub is_due : ℕ → User → Bool
is_due cutoff u =
    (is_some u.deletion_requested_at && passed cutoff u.deletion_requested_at)
    && not (is_some u.deleted_at)

unfoldable pub due_for_erasure : ℕ → ℕ → List ℕ → AccountDb → List ℕ
due_for_erasure now grace_days order db =
    take batch_size (filter (λ id. on_row (is_due (now - grace_days * day)) (db.users id)) order)

-- The loop: a transaction that `fails` is logged, and the next user is tried.
unfoldable pub erase_all : ℕ → (ℕ → Bool) → List ℕ → AccountDb → AccountDb
erase_all now fails [] db = db
erase_all now fails (id ∷ ids) db =
    let erased = delete_user id (audit true now (some id) account_erased (some id) db) in
    erase_all now fails ids (if fails id then db else erased)

unfoldable pub erase_deleted_accounts : ℕ → ℕ → (ℕ → Bool) → List ℕ → AccountDb → AccountDb
erase_deleted_accounts now grace_days fails order db =
    erase_all now fails (due_for_erasure now grace_days order db) db

abbrev pub is_stale : ℕ → MatchRow → Bool
is_stale now row = not (is_some row.ended_at) && ltb row.started_at (now - 6 * 3600000)

unfoldable pub close_stale_matches : ℕ → Dict MatchRow → Dict MatchRow
close_stale_matches now [] = []
close_stale_matches now ((id, row) ∷ rows) =
    let closed = record row { ended_at = some now; end_reason = some error } in
    (id, if is_stale now row then closed else row) ∷ close_stale_matches now rows
