-- ===== src/Accounts/Upkeep.antt =====
-- What the hourly job makes of suspensions, beside the check at sign-in.
use trip2world.Accounts.Laundering.{restriction-over}
use trip2world.Accounts.Restrictions.{latest_suspension, passed, get_active_restriction, set_status}
use trip2world.Prelude.{
  ℕ, zero, suc, ◌≤◌, ◌≡◌, refl, ap, ◌∙◌, subst, inl, inr, Bool, true, not, ◌&&◌, Option, none, some,
  List, [], ◌∷◌, arith, ltb, ◌==◌, if◌then◌else◌, Bool-cases, length, take, filter, In, includes,
  ==_refl,
}
use trip2world.Accounts.Jobs.{
  batch_size, on_row, is_suspended, kept, due_for_restore, restore, restore_due, restored_count,
  expire_suspensions,
}
use trip2world.Accounts.Types.{AccountDb, User, active, on_user, ModerationAction, suspended}

-- The suspended accounts, in the order of the query.
abbrev pub all_suspended : List ℕ → AccountDb → List ℕ
all_suspended order db = filter (λ id. on_row is_suspended (db.users id)) order

-- What the job should make of a row: active if it is suspended and no suspension of it still runs.
abbrev pub expired_row : ℕ → AccountDb → ℕ → User → User
expired_row now db id u =
    if is_suspended u && not (kept now db id) then record u { status = active } else u

job_row :
    (now : ℕ) (order : List ℕ) (db : AccountDb) (id : ℕ)
    → (expire_suspensions now order db).users id
      ≡ on_user
          (λ u. if includes (due_for_restore now order db) id then restore u else u)
          (db.users id)
unfolding expire_suspensions restore_due
job_row now order db id =
    let ids = due_for_restore now order db in
    elim (Bool-cases (ltb 0 (restored_count ids db))) [
      | inl hit ↦ rw hit refl
      | inr miss ↦ rw miss refl
    ]

take_all : (n : ℕ) (xs : List ℕ) → length xs ≤ n → take n xs ≡ xs
take_all zero [] h = refl
take_all zero (x ∷ xs) h = absurd (ground (arith, h))
take_all (suc n) [] h = refl
take_all (suc n) (x ∷ xs) h = ap (λ ys. x ∷ ys) (take_all n xs (ground (arith, h)))

includes-filter :
    (p : ℕ → Bool) (id : ℕ) (xs : List ℕ) → includes (filter p xs) id ≡ (includes xs id && p id)
includes-filter p id [] = refl
includes-filter p id (x ∷ xs) =
    let ih = includes-filter p id xs in
    elim (Bool-cases (id == x)) [
      | inl hit ↦
          let e : id ≡ x = ground (arith, hit) in
          subst (λ y. includes (filter p (y ∷ xs)) id ≡ (includes (y ∷ xs) id && p id)) e
            (ground (arith, ih))
      | inr miss ↦ ground (arith, ih)
    ]

due_eq :
    (now : ℕ) (order : List ℕ) (db : AccountDb) (id : ℕ)
    → length (all_suspended order db) ≤ batch_size
    → includes order id ≡ true
    → includes (due_for_restore now order db) id
      ≡ (on_row is_suspended (db.users id) && not (kept now db id))
unfolding due_for_restore
due_eq now order db id few listed = rw (take_all batch_size (all_suspended order db) few) (
    includes-filter (λ k. not (kept now db k)) id (all_suspended order db)
    ∙ ap (λ b. b && not (kept now db id))
        (includes-filter (λ k. on_row is_suspended (db.users k)) id order ∙ rw listed refl))

restored_row :
    (now : ℕ) (db : AccountDb) (id : ℕ) (o : Option User)
    → on_user (λ u. if on_row is_suspended o && not (kept now db id) then restore u else u) o
      ≡ on_user (expired_row now db id) o
restored_row now db id none = refl
restored_row now db id (some u) = ground (arith)

-- When at most one batch of accounts is suspended, the job makes exactly those active of which no
-- suspension still runs.
pub expire_suspensions-row :
    (now : ℕ) (order : List ℕ) (db : AccountDb) (id : ℕ)
    → length (all_suspended order db) ≤ batch_size
    → includes order id ≡ true
    → (expire_suspensions now order db).users id ≡ on_user (expired_row now db id) (db.users id)
expire_suspensions-row now order db id few listed =
    job_row now order db id
    ∙ ap (λ b. on_user (λ u. if b then restore u else u) (db.users id))
        (due_eq now order db id few listed)
    ∙ restored_row now db id (db.users id)

none_due :
    (now : ℕ) (db : AccountDb) (ids : List ℕ)
    → ((id : ℕ) → In id ids → kept now db id ≡ true)
    → filter (λ id. not (kept now db id)) ids ≡ []
none_due now db [] h = refl
none_due now db (x ∷ xs) h =
    let rest = none_due now db xs (λ id i. h id (inr i)) in rw (h x (inl refl)) rest

same_row : (o : Option User) → on_user (λ u. u) o ≡ o
same_row none = refl
same_row (some u) = refl

-- The query takes one batch and has no order: while the accounts that it gives are all ones whose
-- suspension still runs, the job changes no account, whatever has run out behind them.
pub expire_suspensions-starved :
    (now : ℕ) (order : List ℕ) (db : AccountDb)
    → ((id : ℕ) → In id (take batch_size (all_suspended order db)) → kept now db id ≡ true)
    → (id : ℕ) → (expire_suspensions now order db).users id ≡ db.users id
unfolding due_for_restore
expire_suspensions-starved now order db all_run id =
    job_row now order db id
    ∙ ap (λ ids. on_user (λ u. if includes ids id then restore u else u) (db.users id))
        (none_due now db (take batch_size (all_suspended order db)) all_run)
    ∙ same_row (db.users id)

-- A suspension that still runs keeps the row from the job.
kept_row :
    (now : ℕ) (db : AccountDb) (id : ℕ) (o : Option User)
    → kept now db id ≡ true
    → on_user (expired_row now db id) o ≡ o
kept_row now db id none h = refl
kept_row now db id (some u) h = rw h (ground arith)

-- The check at sign-in reads the last suspension only, and the job all of them. So a shorter suspension
-- that is put over a longer one ends both at the next check, while the job leaves the account suspended.
pub restriction-expire_suspensions :
    (now : ℕ) (order : List ℕ) (db : AccountDb) (id : ℕ) (u : User) (a : ModerationAction)
    → length (all_suspended order db) ≤ batch_size
    → includes order id ≡ true
    → db.users id ≡ some u
    → u.status ≡ suspended
    → latest_suspension id db.actions ≡ some a
    → passed now a.action_expires_at ≡ true
    → kept now db id ≡ true
    → ((get_active_restriction now id db).1.users id ≡ some (set_status active u))
      × ((expire_suspensions now order db).users id ≡ some u)
restriction-expire_suspensions now order db id u a few listed e st last over runs = (
  rw (restriction-over now id u a db e st last over, ==_refl id, e) refl,
  expire_suspensions-row now order db id few listed ∙ kept_row now db id (db.users id) runs ∙ e,
)
