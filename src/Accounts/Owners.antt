-- ===== src/Accounts/Owners.antt =====
-- The calls of owners, the checks and the jobs step each status along the machine; and what follows for an
-- account that its owner has deactivated.
use trip2world.Accounts.Checks.{row-Own, found-Own, asked-Own, reset-Own, change-Own}
use trip2world.Prelude.{
  ℕ, ◌≡◌, refl, subst, inl, inr, Bool, true, false, not, ◌&&◌, Option, none, some, List, [], ◌∷◌,
  arith, ltb, ◌==◌, if◌then◌else◌, Bool-cases, is_some, any, includes, ==_refl,
}
use trip2world.Accounts.Jobs.{
  restore, unban_row, bans_user, other_open, restore_due, lift_run_out, prune_audit_log,
  prune_sessions, prune_verification_tokens,
}
use trip2world.Accounts.Refresh.{refresh, logout, find_session}
use trip2world.Accounts.Recovery.{
  promote, promoted, verified, verify_email, confirm, reset_password, request_deletion, check_token,
  find_token, knows_password, ask_deletion, kind_eq,
}
use trip2world.Accounts.Machine.{
  OwnStep, Steps, own, Steps-audit, own_stays, restriction-Own, own_confirms, Rows, Allowed,
  allowed, nothing, check_allows, is_link_of, own_suspension_over, own_ban_over, Rows-update,
  own_deactivates, Steps-update,
}
use trip2world.Accounts.Auth.{login, Crypto, Draw}
use trip2world.Accounts.Calls.{
  logs_in, refreshes, logs_out, verifies, asks_reset, resets, changes_password, asks_deletion,
  checks_restriction, restores, lifts_bans, prunes, AccountCall, serve, serve_all, prune_all,
}
use trip2world.Accounts.Types.{
  suspended, banned, active, deactivated, pending_verification, User, AccountDb, AccountStatus, Ban,
  Reply, refused, ok, status_eq, on_user, email_verification, password_reset, VerificationToken,
}

promoted-Own : (a : Allowed) (s : AccountStatus) → a.confirms ≡ true → OwnStep a s (promoted s)
promoted-Own a pending_verification may = own_confirms may
promoted-Own a active may = own_stays active
promoted-Own a suspended may = own_stays suspended
promoted-Own a banned may = own_stays banned
promoted-Own a deactivated may = own_stays deactivated

-- A link that passes the three tests is a link of its user.
link_found :
    (hash now id : ℕ) (tokens : List VerificationToken)
    → check_token email_verification now (find_token hash tokens) ≡ ok id
    → any (is_link_of hash now id) tokens ≡ true
unfolding find_token check_token
link_found hash now id [] e = absurd (ground (arith, e))
link_found hash now id (t ∷ tokens) e = elim (Bool-cases (t.token_hash == hash)) [
  | inl own_hash ↦ ground (arith, passes (subst Checked own_hash e), own_hash)
  | inr other ↦ ground (arith, link_found hash now id tokens (subst Checked other e))
]
  where
    Checked : Bool → Type 0
    Checked b =
        check_token email_verification now (if b then some t else find_token hash tokens) ≡ ok id

    passes :
        check_token email_verification now (some t) ≡ ok id
        → (t.token_user == id
            && (kind_eq t.kind email_verification
                && (not (is_some t.consumed_at) && ltb now t.token_expires_at)))
          ≡ true
    passes h = ground (arith, h)

module _ (c : Crypto) (d : Draw) (raw : ℕ) (db : AccountDb) where
  verified-Own :
      (r : Reply ℕ)
      → check_token email_verification d.now (find_token (c.hash_token raw) db.tokens) ≡ r
      → Steps (allowed (verifies c d raw) db) db (verified c d raw r db).1
  unfolding verified
  verified-Own (refused e) same = own (allowed (verifies c d raw) db) db
  verified-Own (ok id) same =
      Steps-audit (allowed (verifies c d raw) db) d.log_up d.now _ _ _ db _ (λ k.
        elim (Bool-cases (k == id)) [
          | inl hit ↦ let e : k ≡ id = ground arith in rw (e, ==_refl id) (both (db.users id))
          | inr miss ↦ rw miss (own (allowed (verifies c d raw) db) db k)
        ])
    where
      both :
          (o : Option User)
          → Rows (allowed (verifies c d raw) db id) o (on_user promote (on_user (confirm d.now) o))
      both none = tt
      both (some u) =
          promoted-Own (allowed (verifies c d raw) db id) u.status
            (link_found (c.hash_token raw) d.now id db.tokens same)

restore-Own :
    (a : Allowed) (b : Bool) (u : User)
    → a.ends_suspension ≡ b
    → OwnStep a u.status (if b then restore u else u).status
restore-Own a false u may = own_stays u.status
restore-Own a true u may = elim (Bool-cases (status_eq u.status suspended)) [
  | inl hit ↦ rw hit (from_suspended u.status hit)
  | inr miss ↦ rw miss (own_stays u.status)
]
  where
    from_suspended : (s : AccountStatus) → status_eq s suspended ≡ true → OwnStep a s active
    from_suspended suspended h = own_suspension_over may
    from_suspended pending_verification h = absurd (ground arith)
    from_suspended active h = absurd (ground arith)
    from_suspended banned h = absurd (ground arith)
    from_suspended deactivated h = absurd (ground arith)

unban-Own :
    (now : ℕ) (run_out : List Ban) (db : AccountDb) (id : ℕ) (u : User)
    → OwnStep (allowed (lifts_bans now run_out) db id) u.status (unban_row run_out db id u).status
unban-Own now run_out db id u =
    elim (Bool-cases (
      (bans_user run_out id && status_eq u.status banned)
      && not (any (other_open run_out id) db.bans))) [
        | inl hit ↦ rw hit (from_banned u.status (ground (arith, hit)) (ground (arith, hit)))
        | inr miss ↦ rw miss (own_stays u.status)
      ]
  where
    from_banned :
        (s : AccountStatus)
        → status_eq s banned ≡ true
        → (bans_user run_out id && not (any (other_open run_out id) db.bans)) ≡ true
        → OwnStep (allowed (lifts_bans now run_out) db id) s active
    from_banned banned h may = own_ban_over may
    from_banned pending_verification h may = absurd (ground arith)
    from_banned active h may = absurd (ground arith)
    from_banned suspended h may = absurd (ground arith)
    from_banned deactivated h may = absurd (ground arith)

deletion-Own :
    (c : Crypto) (d : Draw) (id password : ℕ) (db : AccountDb)
    → Steps (allowed (asks_deletion c d id password) db) db (request_deletion c d id password db).1
unfolding request_deletion
deletion-Own c d id password db = elim (Bool-cases (knows_password c password (db.users id))) [
  | inl right ↦ rw right (
      Steps-audit al d.log_up d.now _ _ _ db _ (
        Steps-update al id (ask_deletion d.now) db (
          Rows-update (al id) (ask_deletion d.now)
            (λ u. own_deactivates u.status (rw (==_refl id, right) refl)) (db.users id))))
  | inr wrong ↦ rw wrong (own al db)
]
  where
    al : ℕ → Allowed
    al = allowed (asks_deletion c d id password) db

-- Each call of an owner, check of a restriction, and job that restores, lifts bans or prunes does to the
-- status of every account at most what `allowed` lists for it. An account becomes active, and from no
-- other status, only: from pending by an unused, unexpired link mailed to its user; from suspended by a
-- sign-in of its own, a refresh or a check, when its newest suspension is over, or by the job that lists
-- it; from banned by one of those three, when its newest unlifted ban is not permanent and is over, or
-- by the job that lifts a ban of it and leaves none open. It is deactivated only by a request with its
-- own password. It keeps its status otherwise.
pub serve-Own : (call : AccountCall) (db : AccountDb) → Steps (allowed call db) db (serve call db)
unfolding serve login refresh verify_email reset_password logout restore_due lift_run_out prune_all
    prune_audit_log prune_sessions prune_verification_tokens
serve-Own (logs_in c d none password) db = own (λ k. nothing) db
serve-Own (logs_in c d (some id) password) db =
    row-Own (allowed (logs_in c d (some id) password) db) c d id password (db.users id) db
      (rw (==_refl id) refl)
serve-Own (refreshes c d raw) db =
    found-Own (λ k. check_allows d.now db k) c d (find_session (c.hash_token raw) db.sessions) db
      (λ k. refl)
serve-Own (logs_out now id) db = own (λ k. nothing) db
serve-Own (verifies c d raw) db = verified-Own c d raw db _ refl
serve-Own (asks_reset c d id) db = asked-Own (λ k. nothing) c d id (db.users id) db
serve-Own (resets c d raw) db =
    reset-Own (λ k. nothing) c d raw
      (check_token password_reset d.now (find_token (c.hash_token raw) db.tokens)) db
serve-Own (changes_password c d id current keep) db =
    change-Own (λ k. nothing) c d id current keep db
serve-Own (asks_deletion c d id password) db = deletion-Own c d id password db
serve-Own (checks_restriction now id) db =
    restriction-Own (allowed (checks_restriction now id) db) now id db (rw (==_refl id) refl)
serve-Own (restores now ids) db = Steps-audit (allowed (restores now ids) db) _ now _ _ _ db _ (λ k.
    Rows-update (allowed (restores now ids) db k) (λ u. if includes ids k then restore u else u)
      (λ u. restore-Own (allowed (restores now ids) db k) (includes ids k) u refl) (db.users k))
serve-Own (lifts_bans now run_out) db = λ k.
    Rows-update (allowed (lifts_bans now run_out) db k) (unban_row run_out db k)
      (unban-Own now run_out db k) (db.users k)
serve-Own (prunes now days) db = own (λ k. nothing) db

abbrev pub IsDeactivated : Option User → Type 0
IsDeactivated none = ⊥
IsDeactivated (some u) = u.status ≡ deactivated

out_of : (a : Allowed) (s s' : AccountStatus) → OwnStep a s s' → s ≡ deactivated → s' ≡ deactivated
out_of a s _ (own_stays t) e = e
out_of a _ _ (own_confirms h) e = absurd (ground arith)
out_of a _ _ (own_suspension_over h) e = absurd (ground arith)
out_of a _ _ (own_ban_over h) e = absurd (ground arith)
out_of a s _ (own_deactivates t h) e = refl

Rows-out : (a : Allowed) (o p : Option User) → Rows a o p → IsDeactivated o → IsDeactivated p
Rows-out a none p h e = absurd e
Rows-out a (some u) none h e = absurd h
Rows-out a (some u) (some v) h e = out_of a u.status v.status h e

-- A deactivated account stays deactivated through every run of owners' calls, checks of a restriction,
-- and jobs that restore, lift bans or prune: to sign in again does not bring it back.
pub IsDeactivated-final :
    (calls : List AccountCall) (db : AccountDb) (id : ℕ)
    → IsDeactivated (db.users id)
    → IsDeactivated ((serve_all calls db).users id)
unfolding serve_all
IsDeactivated-final [] db id h = h
IsDeactivated-final (call ∷ calls) db id h = IsDeactivated-final calls (serve call db) id (
    Rows-out (allowed call db id) (db.users id) ((serve call db).users id) (serve-Own call db id) h)
