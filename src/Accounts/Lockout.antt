-- ===== src/Accounts/Lockout.antt =====
-- The lock after wrong passwords, `recordFailedLogin` of apps/api/src/services/auth.service.ts.
use trip2world.Prelude.{
  ℕ, zero, suc, ◌+◌, ◌-◌, ◌*◌, ◌≤◌, ◌<◌, ◌≡◌, refl, ap, ◌∙◌, ◌≢◌, inl, inr, true, false, Option,
  none, some, arith, ltb, leb, Bool-cases, ==_refl, ◌^◌,
}
use native.Mathlib.Numerals.{unary_clauses}
use trip2world.Accounts.Restrictions.{get_active_restriction, Restriction}
use trip2world.Accounts.Auth.{
  Crypto, Draw, login, login_row, login_hash, record_failed_login, locked_after, lock_seconds,
  threshold, is_locked, admit, issue_session,
}
use trip2world.Accounts.Types.{AccountDb, User, refused, rate_limited}

-- The lock.
pow_pos : (k : ℕ) → 1 ≤ 2 ^ k
pow_pos zero = ground arith
pow_pos (suc k) =
    let ih = pow_pos k in let twice : 1 ≤ 2 ^ k * 2 = ground (arith, ih) in simp unary_clauses twice

-- The delay of a lock is half a minute at least and a quarter of an hour at most.
pub lock_bounds : (n : ℕ) → (30 ≤ lock_seconds n) × (lock_seconds n ≤ 900)
unfolding lock_seconds
lock_bounds n = let h = pow_pos (n - 5) in (ground (arith, h), ground arith)

shut_row :
    (c : Crypto) (d : Draw) (id password : ℕ) (v : User) (h t : ℕ) (db : AccountDb)
    → db.users id ≡ some v
    → v.password_hash ≡ some h
    → v.deleted_at ≡ none
    → v.locked_until ≡ some t
    → d.now < t
    → login c d (some id) password db ≡ (refused rate_limited, db)
unfolding login login_row login_hash
shut_row c d id password v h t db e f here until soon =
    ap (λ o. login_row c d id password o db) e
    ∙ ap (λ o. login_hash c d id password v o db) f
    ∙ (let shut : ltb d.now t ≡ true = ground (arith, soon) in rw (here, until, shut) refl)

admit_rate :
    (c : Crypto) (d : Draw) (id : ℕ) (u : User) (h : ℕ) (r : Option Restriction × AccountDb)
    → (admit c d id u h r).0 ≢ refused rate_limited
unfolding admit issue_session
admit_rate c d id u h (some r, db) = elim (Bool-cases (r.by_ban)) [
  | inl is ↦ rw is (λ e. ground (arith, e))
  | inr not_so ↦ rw not_so (λ e. ground (arith, e))
]
admit_rate c d id u h (none, db) = λ e. ground (arith, e)

open_row :
    (c : Crypto) (d : Draw) (id password : ℕ) (v : User) (h t : ℕ) (db : AccountDb)
    → db.users id ≡ some v
    → v.password_hash ≡ some h
    → v.deleted_at ≡ none
    → v.locked_until ≡ some t
    → t ≤ d.now
    → (login c d (some id) password db).0 ≢ refused rate_limited
unfolding login login_row login_hash admit
open_row c d id password v h t db e f here until over =
    let clear : ltb d.now t ≡ false = ground (arith, over) in
    rw (e, f, here, until, clear)
      (elim (Bool-cases (c.verify h password)) [
        | inl right ↦ rw right (admit_rate c d id v h (get_active_restriction d.now id db))
        | inr wrong ↦ rw wrong (λ x. ground (arith, x))
      ])

wrong_row :
    (c : Crypto) (d : Draw) (id wrong : ℕ) (u : User) (h : ℕ) (db : AccountDb)
    → db.users id ≡ some u
    → u.password_hash ≡ some h
    → u.deleted_at ≡ none
    → is_locked d.now u ≡ false
    → c.verify h wrong ≡ false
    → (login c d (some id) wrong db).1 ≡ record_failed_login d.now id u.failed_login_attempts db
unfolding login login_row login_hash
wrong_row c d id wrong u h db e f here clear no_match =
    ap (λ o. (login_row c d id wrong o db).1) e
    ∙ ap (λ o. (login_hash c d id wrong u o db).1) f
    ∙ rw (here, clear, no_match) refl

locked_row :
    (now id : ℕ) (u : User) (db : AccountDb)
    → db.users id ≡ some u
    → 4 ≤ u.failed_login_attempts
    → (record_failed_login now id u.failed_login_attempts db).users id
      ≡ some (record u {
        failed_login_attempts = suc u.failed_login_attempts;
        locked_until = some (now + lock_seconds (suc u.failed_login_attempts) * 1000);
      })
unfolding record_failed_login locked_after
locked_row now id u db e many =
    let reached : leb threshold (suc u.failed_login_attempts) ≡ true = ground (arith, many) in
    rw (==_refl id, e, reached) refl

-- The fifth wrong password in a row, and each one after it, shuts the account to every password, right
-- ones too, for half a minute at least; a quarter of an hour later no password is turned away for it.
pub wrong_password-login :
    (c : Crypto) (d later : Draw) (id wrong password : ℕ) (u : User) (h : ℕ) (db : AccountDb)
    → db.users id ≡ some u
    → u.password_hash ≡ some h
    → u.deleted_at ≡ none
    → is_locked d.now u ≡ false
    → c.verify h wrong ≡ false
    → 4 ≤ u.failed_login_attempts
    → let db' = (login c d (some id) wrong db).1 in
      (later.now < d.now + 30000
        → login c later (some id) password db' ≡ (refused rate_limited, db'))
      × (d.now + 900000 ≤ later.now
          → (login c later (some id) password db').0 ≢ refused rate_limited)
wrong_password-login c d later id wrong password u h db e f here clear no_match many =
    let t = d.now + lock_seconds (suc u.failed_login_attempts) * 1000 in
    let v : User = record u {
      failed_login_attempts = suc u.failed_login_attempts;
      locked_until = some t;
    } in
    let written = record_failed_login d.now id u.failed_login_attempts db in
    let row = locked_row d.now id u db e many in
    let (least, most) = lock_bounds (suc u.failed_login_attempts) in
    rw (wrong_row c d id wrong u h db e f here clear no_match) (
      λ soon.
          shut_row c later id password v h t written row f here refl (ground (arith, soon, least)),
      λ over.
          open_row c later id password v h t written row f here refl (ground (arith, over, most)),
    )
