-- ===== src/Accounts/Staff.antt =====
-- Whom moderators cannot touch.
use trip2world.Accounts.Writes.{
  decide_other, audit_users, evict_db, written_db, guarded_row, first_of, middle_of, direct_written,
}
use trip2world.Accounts.Calls.{
  warns, claims_report, resolves, acts_directly, reinstates, ModerationCall, caller, moderate,
  moderate_all,
}
use trip2world.Accounts.Types.{
  AccountDb, User, ApiError, living, not_found, audit, forbidden, on_user, user_banned, Report,
  conflict, user_suspended, under_review, user_reinstated,
}
use trip2world.Accounts.Decisions.{
  apply_decision, ResolveInput, is_restricted, resolve_direct, direct_error, direct_done,
  apply_direct, Weather, DirectInput, ban_error, resolve_found, lift_all, reinstate_found,
  resolve_error, reactivate, resolve, resolve_done, reinstate, is_resolved, is_ban, audit_of,
  restricts, resolve_written, close_report,
}
use trip2world.Accounts.Moderation.{
  Moderator, assert_actionable, actionable, is_staff, evict, Site, warn, WarnInput, warn_done,
  claim_report, claim, is_pending, on_db,
}
use trip2world.Prelude.{
  ℕ, ◌≡◌, refl, sym, ap, ◌∙◌, subst, ◌≢◌, ◌⊎◌, inl, inr, Bool, true, false, Option, none, some,
  List, [], ◌∷◌, arith, ◌==◌, if◌then◌else◌, Bool-cases, Option-cases, Text, at_key,
}

-- The row of a user who is no restricted one, and who is staff or calls.
unfoldable pub Untouchable : Moderator → ℕ → AccountDb → Type 0
Untouchable m id db =
    (u : User) × (db.users id ≡ some u)
    × (is_restricted u.status ≡ false)
    × ((is_staff u.role ≡ true) ⊎ (id ≡ m.id_of))

row_not_actionable :
    (m : Moderator) (id : ℕ) (u : User)
    → ((is_staff u.role ≡ true) ⊎ (id ≡ m.id_of))
    → (e : ApiError) × (actionable (living (some u)) id m.id_of ≡ some e)
unfolding actionable
row_not_actionable m id u why = elim (Option-cases (u.deleted_at)) [
  | inr (t, gone) ↦ (not_found, rw gone refl)
  | inl here ↦ (forbidden, rw here (ground (arith, why)))
]

not_actionable :
    (m : Moderator) (id : ℕ) (db : AccountDb)
    → Untouchable m id db
    → (e : ApiError) × (assert_actionable id m.id_of db ≡ some e)
unfolding Untouchable assert_actionable
not_actionable m id db (u, e, free, why) =
    let (err, f) = row_not_actionable m id u why in
    (err, ap (λ o. actionable (living o) id m.id_of) e ∙ f)

-- So a call that is not refused is about another account.
other_target :
    (m : Moderator) (id target : ℕ) (db : AccountDb)
    → Untouchable m id db
    → assert_actionable target m.id_of db ≡ none
    → target ≢ id
other_target m id target db safe passes hit =
    let (err, f) = not_actionable m id db safe in
    let g : assert_actionable id m.id_of db ≡ none =
      subst (λ k. assert_actionable k m.id_of db ≡ none) hit passes in
    absurd (ground (arith, f, g))

warn_row :
    (up : Bool) (now : ℕ) (input : WarnInput) (m : Moderator) (s : Site) (id : ℕ)
    → (warn up now input m s).1.db.users id ≡ s.db.users id
unfolding warn
warn_row up now input m s id =
    guarded_row (assert_actionable input.warn_target m.id_of s.db) (warn_done up now input m s) s id
      (λ e. elim (Bool-cases up) [ inl on ↦ rw on refl | inr off ↦ rw off refl ])

direct_row :
    (up : Weather) (now : ℕ) (input : DirectInput) (m : Moderator) (s : Site) (id : ℕ)
    → Untouchable m id s.db
    → (resolve_direct up now input m s).1.db.users id ≡ s.db.users id
unfolding resolve_direct direct_error direct_done
direct_row up now input m s id safe =
    guarded_row (direct_error input m s.db) (direct_done up now input m s) s id (λ passes.
      let other = other_target m id input.direct_target s.db safe (
        first_of (assert_actionable input.direct_target m.id_of s.db)
          (ban_error input.direct_ban m.role_of) passes) in
      ap (λ us. us id)
        (audit_users up.audit_up now (some m.id_of)
          (if input.direct_ban then user_banned else user_suspended) (some input.direct_target)
          (evict up.redis_up input.direct_target (on_db (apply_direct now input m.id_of) s)).db)
      ∙ ap (λ db. db.users id)
          (evict_db up.redis_up input.direct_target (on_db (apply_direct now input m.id_of) s))
      ∙ direct_written now m.id_of input id s.db other)

report_row :
    (up : Weather) (now : ℕ) (input : ResolveInput) (m : Moderator) (o : Option Report) (s : Site)
    (id : ℕ)
    → Untouchable m id s.db
    → (resolve_found up now input m o s).1.db.users id ≡ s.db.users id
unfolding resolve_found resolve_error resolve_done apply_decision
report_row up now input m none s id safe = refl
report_row up now input m (some r) s id safe =
    guarded_row (resolve_error input m r s.db) (resolve_done up now input m r s) s id (λ passes.
      let other = other_target m id r.reported_user s.db safe (
        middle_of (if is_resolved r.report_status then some conflict else none)
          (assert_actionable r.reported_user m.id_of s.db)
          (ban_error (is_ban input.decision) m.role_of) passes) in
      ap (λ us. us id)
        (audit_users up.audit_up now (some m.id_of) (audit_of input.decision) (some r.reported_user)
          (if restricts input.decision
            then evict up.redis_up r.reported_user (resolve_written now input m r s)
            else resolve_written now input m r s).db)
      ∙ ap (λ db. db.users id)
          (written_db (restricts input.decision) up.redis_up r.reported_user
            (resolve_written now input m r s))
      ∙ decide_other input.decision now input r.reported_user m.id_of id
          (close_report now input m.id_of r s.db) other)

claimed_row :
    (o : Option Report) (report who : ℕ) (s : Site) (id : ℕ)
    → (claim_report o report who s).1.db.users id ≡ s.db.users id
unfolding claim_report
claimed_row none report who s id = refl
claimed_row (some r) report who s id =
    guarded_row (if is_pending r.report_status then none else some conflict)
      (on_db
        (λ db. record db {
          reports =
              at_key db.reports report
                (some (record r { report_status = under_review; reviewed_by = some who }));
        })
        s)
      s id (λ e. refl)

-- A reinstatement leaves a row that is not restricted.
reactivate_free :
    (o : Option User) (u : User)
    → o ≡ some u
    → is_restricted u.status ≡ false
    → on_user reactivate o ≡ some u
reactivate_free o u e free = rw (e, free) refl

lifted_row :
    (now target who : ℕ) (why : Text) (db : AccountDb) (id : ℕ) (u : User)
    → db.users id ≡ some u
    → is_restricted u.status ≡ false
    → (lift_all now target who why db).users id ≡ db.users id
unfolding lift_all
lifted_row now target who why db id u e free = elim (Bool-cases (id == target)) [
  | inl hit ↦
      let g : id ≡ target = ground arith in
      rw hit (
        subst (λ k. on_user reactivate (db.users k) ≡ db.users id) g
          (reactivate_free (db.users id) u e free ∙ sym e))
  | inr miss ↦ rw miss refl
]

reinstated_row :
    (up : Bool) (now : ℕ) (o : Option User) (target : ℕ) (why : Text) (m : Moderator) (s : Site)
    (id : ℕ) (u : User)
    → s.db.users id ≡ some u
    → is_restricted u.status ≡ false
    → (reinstate_found up now o target why m s).1.db.users id ≡ s.db.users id
unfolding reinstate_found
reinstated_row up now none target why m s id u e free = refl
reinstated_row up now (some v) target why m s id u e free =
    guarded_row (if is_restricted v.status then none else some conflict)
      (on_db
        (λ db.
          audit up now (some m.id_of) user_reinstated (some target)
            (lift_all now target m.id_of why db))
        s)
      s id
      (λ passes.
        ap (λ us. us id)
          (audit_users up now (some m.id_of) user_reinstated (some target)
            (lift_all now target m.id_of why s.db))
        ∙ lifted_row now target m.id_of why s.db id u e free)

-- A call of a moderator leaves the row of an untouchable account.
moderate-row :
    (call : ModerationCall) (s : Site) (id : ℕ)
    → Untouchable (caller call) id s.db
    → (moderate call s).db.users id ≡ s.db.users id
unfolding moderate claim resolve reinstate Untouchable
moderate-row (warns up now input m) s id safe = warn_row up now input m s id
moderate-row (claims_report report m) s id safe =
    claimed_row (s.db.reports report) report m.id_of s id
moderate-row (resolves up now input m) s id safe =
    report_row up now input m (s.db.reports input.report_id) s id safe
moderate-row (acts_directly up now input m) s id safe = direct_row up now input m s id safe
moderate-row (reinstates up now target why m) s id (u, e, free, who) =
    reinstated_row up now (living (s.db.users target)) target why m s id u e free

abbrev pub IsStaff : ℕ → AccountDb → Type 0
IsStaff id db =
    (u : User) × (db.users id ≡ some u)
    × (is_restricted u.status ≡ false)
    × (is_staff u.role ≡ true)

-- No run of moderation calls, by whichever callers, at whichever times, with whatever of the audit log
-- and Redis failing, changes anything in the account of an unrestricted member of staff.
pub staff_untouched :
    (calls : List ModerationCall) (s : Site) (id : ℕ)
    → IsStaff id s.db
    → (moderate_all calls s).db.users id ≡ s.db.users id
unfolding moderate_all Untouchable
staff_untouched [] s id safe = refl
staff_untouched (call ∷ calls) s id (u, e, free, staff) =
    let same = moderate-row call s id (u, e, free, inl staff) in
    staff_untouched calls (moderate call s) id (u, same ∙ e, free, staff) ∙ same
