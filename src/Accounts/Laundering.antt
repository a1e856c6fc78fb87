-- ===== src/Accounts/Laundering.antt =====
-- What becomes of a suspended account once its suspension is over.
use trip2world.Accounts.Restrictions.{
  get_active_restriction, restriction_of, restriction_by, suspended_restriction, latest_suspension,
  passed, set_status,
}
use trip2world.Prelude.{
  ℕ, suc, ◌+◌, ◌*◌, ◌≡◌, refl, Bool, true, false, Option, none, some, arith, get_or, Text, ==_refl,
  ◌≤◌, ap, ◌∙◌,
}
use trip2world.Accounts.Writes.{guarded_ok}
use trip2world.Accounts.Types.{
  suspended, AccountDb, User, ok, active, ModerationAction, suspension, update_user,
}
use trip2world.Accounts.Decisions.{
  apply_direct, direct_done, direct_error, resolve_direct, DirectInput, Weather,
}
use trip2world.Accounts.Moderation.{Site, Moderator, suspend, evict, action_row}

-- The lazy check of a suspension that is over.
pub restriction-over :
    (later id : ℕ) (v : User) (a : ModerationAction) (db : AccountDb)
    → db.users id ≡ some v
    → v.status ≡ suspended
    → latest_suspension id db.actions ≡ some a
    → passed later a.action_expires_at ≡ true
    → get_active_restriction later id db ≡ (none, update_user id (set_status active) db)
unfolding get_active_restriction restriction_of restriction_by suspended_restriction
restriction-over later id v a db e st f over =
    ap (λ o. restriction_of later id o db) e
    ∙ ap (λ now_is. restriction_by later id now_is db) st
    ∙ ap (λ found. suspended_restriction later id found db) f
    ∙ rw over refl

suspended_users :
    (now target who : ℕ) (why : Text) (remark : Option Text) (expires : ℕ) (db : AccountDb)
    (u : User)
    → db.users target ≡ some u
    → (suspend now target who why remark expires db).users target
      ≡ some (record u { status = suspended; token_generation = suc u.token_generation })
unfolding suspend
suspended_users now target who why remark expires db u e = rw (==_refl target, e) refl

suspended_actions :
    (now target who : ℕ) (why : Text) (remark : Option Text) (expires : ℕ) (db : AccountDb)
    → latest_suspension target (suspend now target who why remark expires db).actions
      ≡ some (action_row target who suspension why remark (some expires))
unfolding suspend latest_suspension
suspended_actions now target who why remark expires db = rw (==_refl target) refl

-- When a direct suspension ends.
abbrev pub direct_until : ℕ → DirectInput → ℕ
direct_until now input = now + get_or input.direct_hours 24 * 3600000

abbrev direct_written : ℕ → DirectInput → Moderator → Site → AccountDb
direct_written now input m s =
    suspend now input.direct_target m.id_of input.direct_reason input.direct_notes
      (direct_until now input) s.db

-- The writes after the transaction change neither accounts nor records of moderation.
direct_tables :
    (up : Weather) (now : ℕ) (input : DirectInput) (m : Moderator) (s : Site)
    → input.direct_ban ≡ false
    → ((direct_done up now input m s).db.users ≡ (direct_written now input m s).users)
      × ((direct_done up now input m s).db.actions ≡ (direct_written now input m s).actions)
      × ((direct_done up now input m s).db.bans ≡ (direct_written now input m s).bans)
unfolding direct_done apply_direct evict
direct_tables up now input m s e = by_weather (up.audit_up) (up.redis_up)
  where
    by_weather :
        (log redis : Bool)
        → (let db = (direct_done (record { audit_up = log; redis_up = redis }) now input m s).db in
            (db.users ≡ (direct_written now input m s).users)
            × (db.actions ≡ (direct_written now input m s).actions)
            × (db.bans ≡ (direct_written now input m s).bans))
    by_weather true true = rw e (refl, refl, refl)
    by_weather true false = rw e (refl, refl, refl)
    by_weather false true = rw e (refl, refl, refl)
    by_weather false false = rw e (refl, refl, refl)

-- A direct suspension that is answered with success, of an account in whatever status, makes the account
-- active at its next check once it is over, lifting no ban of it and confirming no address.
pub suspension_launders :
    (up : Weather) (now later : ℕ) (input : DirectInput) (m : Moderator) (s : Site) (u : User)
    → s.db.users input.direct_target ≡ some u
    → input.direct_ban ≡ false
    → (resolve_direct up now input m s).0 ≡ ok tt
    → direct_until now input ≤ later
    → let (restriction, db) =
        get_active_restriction later input.direct_target (resolve_direct up now input m s).1.db in
      (restriction ≡ none)
      × (db.users input.direct_target
          ≡ some (record u { status = active; token_generation = suc u.token_generation }))
      × (db.bans ≡ s.db.bans)
unfolding resolve_direct suspend
suspension_launders up now later input m s u e is_suspension_call done over =
    let (passes, same) =
      guarded_ok (direct_error input m s.db) (direct_done up now input m s) s done in
    let (users_eq, actions_eq, bans_eq) = direct_tables up now input m s is_suspension_call in
    let t = input.direct_target in
    let row : (direct_done up now input m s).db.users t
        ≡ some (record u { status = suspended; token_generation = suc u.token_generation }) =
      ap (λ us. us t) users_eq
      ∙ suspended_users now t m.id_of input.direct_reason input.direct_notes
          (direct_until now input) s.db u e in
    let lifted =
      restriction-over later t
        (record u { status = suspended; token_generation = suc u.token_generation })
        (action_row t m.id_of suspension input.direct_reason input.direct_notes
          (some (direct_until now input)))
        (direct_done up now input m s).db row refl
        (ap (latest_suspension t) actions_eq
          ∙ suspended_actions now t m.id_of input.direct_reason input.direct_notes
              (direct_until now input) s.db)
        (ground (arith, over)) in
    rw (same, lifted) (refl, (rw (==_refl t, row) refl), bans_eq)
