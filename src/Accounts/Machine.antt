-- ===== src/Accounts/Machine.antt =====
-- What each call of an owner or a job may do to the status of an account, and the steps of the status
-- under what is allowed.
use trip2world.Accounts.Jobs.{bans_user, other_open}
use trip2world.Accounts.Recovery.{kind_eq, knows_password}
use trip2world.Prelude.{
  ℕ, ◌≡◌, refl, sym, subst, inl, inr, Bool, true, false, not, ◌&&◌, Option, none, some, arith, ltb,
  ◌==◌, if◌then◌else◌, Bool-cases, Option-cases, is_some, any, includes, ==_refl,
}
use trip2world.Accounts.Calls.{
  logs_in, refreshes, verifies, asks_deletion, checks_restriction, restores, lifts_bans,
  AccountCall,
}
use trip2world.Accounts.Restrictions.{
  get_active_restriction, restriction_of, banned_restriction, suspended_restriction, set_status,
  restriction_by, passed, latest_suspension, latest_ban,
}
use trip2world.Accounts.Types.{
  suspended, banned, active, deactivated, pending_verification, AccountStatus, User, AccountDb,
  on_user, update_user, Ban, ModerationAction, AuditAction, audit, VerificationToken,
  email_verification,
}

-- What a call may do to the status of an account, besides leaving it.
pub record Allowed : Type 0 where
  pub confirms : Bool
  pub ends_suspension : Bool
  pub ends_ban : Bool
  pub deactivates : Bool

abbrev pub nothing : Allowed
nothing = record {
  confirms = false;
  ends_suspension = false;
  ends_ban = false;
  deactivates = false;
}

-- The newest suspension, or the newest ban that is not lifted, has a time, which is over.
abbrev pub suspension_over : ℕ → Option ModerationAction → Bool
suspension_over now none = false
suspension_over now (some a) = passed now a.action_expires_at

abbrev pub ban_over : ℕ → Option Ban → Bool
ban_over now none = false
ban_over now (some b) = not b.permanent && passed now b.ban_expires_at

-- What a check of the restriction may do.
abbrev pub check_allows : ℕ → AccountDb → ℕ → Allowed
check_allows now db id = record nothing {
  ends_suspension = suspension_over now (latest_suspension id db.actions);
  ends_ban = ban_over now (latest_ban id db.bans);
}

-- An unused mailed link for the address of that user, whose time is not over.
abbrev pub is_link_of : ℕ → ℕ → ℕ → VerificationToken → Bool
is_link_of hash now id t =
    (t.token_hash == hash && t.token_user == id)
    && (kind_eq t.kind email_verification
        && (not (is_some t.consumed_at) && ltb now t.token_expires_at))

-- What each call may do to the account of a user.
abbrev pub allowed : AccountCall → AccountDb → ℕ → Allowed
allowed (logs_in c d (some who) password) db id =
    if id == who then check_allows d.now db id else nothing
allowed (refreshes c d raw) db id = check_allows d.now db id
allowed (verifies c d raw) db id = record nothing {
  confirms = any (is_link_of (c.hash_token raw) d.now id) db.tokens;
}
allowed (asks_deletion c d who password) db id = record nothing {
  deactivates = id == who && knows_password c password (db.users id);
}
allowed (checks_restriction now who) db id = if id == who then check_allows now db id else nothing
allowed (restores now ids) db id = record nothing { ends_suspension = includes ids id }
allowed (lifts_bans now run_out) db id = record nothing {
  ends_ban = bans_user run_out id && not (any (other_open run_out id) db.bans);
}
allowed _ db id = nothing

-- A step of a status by what is allowed.
pub data OwnStep (a : Allowed) : AccountStatus → AccountStatus → Type 0 where
  own_stays : (s : AccountStatus) → OwnStep a s s
  own_confirms : a.confirms ≡ true → OwnStep a pending_verification active
  own_suspension_over : a.ends_suspension ≡ true → OwnStep a suspended active
  own_ban_over : a.ends_ban ≡ true → OwnStep a banned active
  own_deactivates : (s : AccountStatus) → a.deactivates ≡ true → OwnStep a s deactivated

abbrev pub Rows : Allowed → Option User → Option User → Type 0
Rows a none none = Unit {0}
Rows a (some u) (some v) = OwnStep a u.status v.status
Rows a _ _ = ⊥

-- Every account steps.
abbrev pub Steps : (ℕ → Allowed) → AccountDb → AccountDb → Type 0
Steps al db db' = (id : ℕ) → Rows (al id) (db.users id) (db'.users id)

pub Rows-same : (a : Allowed) (o : Option User) → Rows a o o
Rows-same a none = tt
Rows-same a (some u) = own_stays u.status

pub own : (al : ℕ → Allowed) (db : AccountDb) → Steps al db db
own al db k = Rows-same (al k) (db.users k)

pub Rows-update :
    (a : Allowed) (f : User → User)
    → ((u : User) → OwnStep a u.status (f u).status)
    → (o : Option User) → Rows a o (on_user f o)
Rows-update a f step none = tt
Rows-update a f step (some u) = step u

Rows-keep :
    (a : Allowed) (f : User → User)
    → ((u : User) → (f u).status ≡ u.status)
    → (o p : Option User) → Rows a o p
    → Rows a o (on_user f p)
Rows-keep a f keep none none h = tt
Rows-keep a f keep none (some v) h = absurd h
Rows-keep a f keep (some u) none h = absurd h
Rows-keep a f keep (some u) (some v) h = subst (λ s. OwnStep a u.status s) (sym (keep v)) h

module _ (al : ℕ → Allowed) where
  -- An update that makes steps, of a row.
  pub Steps-update :
      (id : ℕ) (f : User → User) (db : AccountDb)
      → Rows (al id) (db.users id) (on_user f (db.users id))
      → Steps al db (update_user id f db)
  Steps-update id f db step k = elim (Bool-cases (k == id)) [
    | inl hit ↦ let e : k ≡ id = ground arith in rw (e, ==_refl id) step
    | inr miss ↦ rw miss (own al db k)
  ]

  -- An update that keeps the status, after a step.
  pub Steps-keep :
      (id : ℕ) (f : User → User) (db db' : AccountDb)
      → ((u : User) → (f u).status ≡ u.status)
      → Steps al db db'
      → Steps al db (update_user id f db')
  Steps-keep id f db db' keep steps k = elim (Bool-cases (k == id)) [
    | inl hit ↦
        let e : k ≡ id = ground arith in
        rw (e, ==_refl id) (Rows-keep (al id) f keep (db.users id) (db'.users id) (steps id))
    | inr miss ↦ rw miss (steps k)
  ]

  -- The audit log is no part of a status.
  pub Steps-audit :
      (up : Bool) (now : ℕ) (who : Option ℕ) (what : AuditAction) (about : Option ℕ)
      (db db' : AccountDb)
      → Steps al db db'
      → Steps al db (audit up now who what about db')
  Steps-audit true now who what about db db' steps = steps
  Steps-audit false now who what about db db' steps = steps

  reactivated :
      (id : ℕ) (u : User) (s : AccountStatus) (db : AccountDb)
      → db.users id ≡ some u
      → u.status ≡ s
      → OwnStep (al id) s active
      → Rows (al id) (db.users id) (on_user (set_status active) (db.users id))
  reactivated id u s db e f step = rw (e, f) step

  banned-Own :
      (now id : ℕ) (b : Option Ban) (u : User) (db : AccountDb)
      → (ban_over now b ≡ true → (al id).ends_ban ≡ true)
      → db.users id ≡ some u
      → u.status ≡ banned
      → Steps al db (banned_restriction now id b db).1
  unfolding banned_restriction
  banned-Own now id none u db may e f = own al db
  banned-Own now id (some b) u db may e f =
      elim (Bool-cases (not b.permanent && passed now b.ban_expires_at)) [
        | inl hit ↦ rw hit (
            Steps-update id (set_status active) db
              (reactivated id u banned db e f (own_ban_over (may hit))))
        | inr miss ↦ rw miss (own al db)
      ]

  suspended-Own :
      (now id : ℕ) (a : Option ModerationAction) (u : User) (db : AccountDb)
      → (suspension_over now a ≡ true → (al id).ends_suspension ≡ true)
      → db.users id ≡ some u
      → u.status ≡ suspended
      → Steps al db (suspended_restriction now id a db).1
  unfolding suspended_restriction
  suspended-Own now id none u db may e f = own al db
  suspended-Own now id (some a) u db may e f = elim (Bool-cases (passed now a.action_expires_at)) [
    | inl hit ↦ rw hit (
        Steps-update id (set_status active) db
          (reactivated id u suspended db e f (own_suspension_over (may hit))))
    | inr miss ↦ rw miss (own al db)
  ]

  -- What a check of the restriction does, where it is allowed that.
  pub restriction-Own :
      (now id : ℕ) (db : AccountDb)
      → al id ≡ check_allows now db id
      → Steps al db (get_active_restriction now id db).1
  unfolding get_active_restriction restriction_of restriction_by
  restriction-Own now id db same = elim (Option-cases (db.users id)) [
    | inl e ↦ rw e (own al db)
    | inr (u, e) ↦ rw e (by_status u u.status e refl)
  ]
    where
      by_status :
          (u : User) (s : AccountStatus)
          → db.users id ≡ some u
          → u.status ≡ s
          → Steps al db (restriction_by now id s db).1
      by_status u banned e f = banned-Own now id (latest_ban id db.bans) u db (λ h. rw same h) e f
      by_status u suspended e f =
          suspended-Own now id (latest_suspension id db.actions) u db (λ h. rw same h) e f
      by_status u pending_verification e f = own al db
      by_status u active e f = own al db
      by_status u deactivated e f = own al db
