-- ===== src/Accounts/Checks.antt =====
-- The sign-in, the refresh, and the calls on passwords of apps/api/src/services/auth.service.ts, and the
-- status of an account: only their check of the restriction changes it.
use trip2world.Prelude.{
  ℕ, suc, ◌≡◌, refl, inl, inr, ◌||◌, Option, none, some, arith, leb, Bool-cases, is_some,
}
use trip2world.Accounts.Refresh.{rotate_session, refresh_session, refresh_found}
use trip2world.Accounts.Restrictions.{get_active_restriction, Restriction}
use trip2world.Accounts.Recovery.{
  reset_to, create_password_reset_token, with_new_password, may_reset, change_password,
  knows_password, changed_password,
}
use trip2world.Accounts.Machine.{
  Steps, own, Steps-audit, Steps-keep, restriction-Own, Allowed, check_allows,
}
use trip2world.Accounts.Auth.{
  admit, issue_session, Crypto, Draw, signed_in, rehash, login_hash, login_row, record_failed_login,
  is_locked, locked_after,
}
use trip2world.Accounts.Types.{User, AccountDb, Session, Reply, refused, ok}

module _ (al : ℕ → Allowed) where
  admit-Own :
      (c : Crypto) (d : Draw) (id : ℕ) (u : User) (h : ℕ) (db : AccountDb)
      → al id ≡ check_allows d.now db id
      → Steps al db (admit c d id u h (get_active_restriction d.now id db)).1
  unfolding admit issue_session
  admit-Own c d id u h db same =
      by_restriction (get_active_restriction d.now id db) (restriction-Own al d.now id db same)
    where
      by_restriction :
          (r : Option Restriction × AccountDb)
          → Steps al db r.1
          → Steps al db (admit c d id u h r).1
      by_restriction (some r, db') steps = steps
      by_restriction (none, db') steps =
          Steps-audit al d.log_up d.now _ _ _ db _
            (Steps-keep al id (λ v. signed_in d (rehash c d h v)) db db' (λ v. ground arith) steps)

  hash-Own :
      (c : Crypto) (d : Draw) (id password : ℕ) (u : User) (h : Option ℕ) (db : AccountDb)
      → al id ≡ check_allows d.now db id
      → Steps al db (login_hash c d id password u h db).1
  unfolding login_hash record_failed_login
  hash-Own c d id password u none db same = own al db
  hash-Own c d id password u (some h) db same = elim (Bool-cases (is_some u.deleted_at)) [
    | inl gone ↦ rw gone (own al db)
    | inr here ↦ elim (Bool-cases (is_locked d.now u)) [
      | inl shut ↦ rw (here, shut) (own al db)
      | inr clear ↦ elim (Bool-cases (c.verify h password)) [
        | inl right ↦ rw (here, clear, right) (admit-Own c d id u h db same)
        | inr wrong ↦
            rw (here, clear, wrong)
              (Steps-keep al id
                (λ v. record v {
                  failed_login_attempts = suc u.failed_login_attempts;
                  locked_until = locked_after d.now (suc u.failed_login_attempts);
                })
                db db (λ v. refl) (own al db))
      ]
    ]
  ]

  pub row-Own :
      (c : Crypto) (d : Draw) (id password : ℕ) (o : Option User) (db : AccountDb)
      → al id ≡ check_allows d.now db id
      → Steps al db (login_row c d id password o db).1
  unfolding login_row
  row-Own c d id password none db same = own al db
  row-Own c d id password (some u) db same = hash-Own c d id password u u.password_hash db same

  rotate-Own :
      (c : Crypto) (d : Draw) (s : Session) (u : User) (db : AccountDb)
      → ((id : ℕ) → al id ≡ check_allows d.now db id)
      → Steps al db (rotate_session c d s u (get_active_restriction d.now s.session_user db)).1
  unfolding rotate_session
  rotate-Own c d s u db same =
      by_restriction (get_active_restriction d.now s.session_user db)
        (restriction-Own al d.now s.session_user db (same s.session_user))
    where
      by_restriction :
          (r : Option Restriction × AccountDb)
          → Steps al db r.1
          → Steps al db (rotate_session c d s u r).1
      by_restriction (some r, db') steps = steps
      by_restriction (none, db') steps = steps

  session-Own :
      (c : Crypto) (d : Draw) (s : Session) (o : Option User) (db : AccountDb)
      → ((id : ℕ) → al id ≡ check_allows d.now db id)
      → Steps al db (refresh_session c d s o db).1
  unfolding refresh_session
  session-Own c d s none db same = own al db
  session-Own c d s (some u) db same = elim (Bool-cases (is_some s.revoked_at)) [
    | inl shut ↦ rw shut (own al db)
    | inr clear ↦ elim (Bool-cases (leb s.session_expires_at d.now || is_some u.deleted_at)) [
      | inl over ↦ rw (clear, over) (own al db)
      | inr runs ↦ rw (clear, runs) (rotate-Own c d s u db same)
    ]
  ]

  pub found-Own :
      (c : Crypto) (d : Draw) (s : Option Session) (db : AccountDb)
      → ((id : ℕ) → al id ≡ check_allows d.now db id)
      → Steps al db (refresh_found c d s db).1
  unfolding refresh_found
  found-Own c d none db same = own al db
  found-Own c d (some s) db same = session-Own c d s (db.users s.session_user) db same

  pub reset-Own :
      (c : Crypto) (d : Draw) (raw : ℕ) (r : Reply ℕ) (db : AccountDb)
      → Steps al db (reset_to c d raw r db).1
  unfolding reset_to
  reset-Own c d raw (refused e) db = own al db
  reset-Own c d raw (ok id) db =
      Steps-audit al d.log_up d.now _ _ _ db _
        (Steps-keep al id (with_new_password d.fresh_password_hash) db db (λ v. refl) (own al db))

  pub asked-Own :
      (c : Crypto) (d : Draw) (id : ℕ) (o : Option User) (db : AccountDb)
      → Steps al db (create_password_reset_token c d id o db).1
  unfolding create_password_reset_token
  asked-Own c d id none db = own al db
  asked-Own c d id (some u) db = elim (Bool-cases (may_reset u)) [
    | inl may ↦ rw may (own al db)
    | inr not_so ↦ rw not_so (own al db)
  ]

  pub change-Own :
      (c : Crypto) (d : Draw) (id current keep : ℕ) (db : AccountDb)
      → Steps al db (change_password c d id current keep db).1
  unfolding change_password
  change-Own c d id current keep db = elim (Bool-cases (knows_password c current (db.users id))) [
    | inl right ↦ rw right (
        Steps-audit al d.log_up d.now _ _ _ db _
          (Steps-keep al id (changed_password d.fresh_password_hash) db db (λ v. refl) (own al db)))
    | inr wrong ↦ rw wrong (own al db)
  ]
