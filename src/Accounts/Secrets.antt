-- ===== src/Accounts/Secrets.antt =====
-- The rotation of refresh tokens.
use trip2world.Prelude.{
  ℕ, ◌≡◌, refl, sym, ap, ◌∙◌, ◌≢◌, inl, inr, not, ◌&&◌, ◌||◌, Option, none, some, List, [], ◌∷◌,
  map, arith, leb, ◌==◌, if◌then◌else◌, Bool-cases, Option-cases, is_some, In,
}
use trip2world.Accounts.Restrictions.{
  get_active_restriction, restriction_of, restriction_by, banned_restriction, suspended_restriction,
  Restriction, passed, latest_ban, latest_suspension,
}
use trip2world.Accounts.Refresh.{
  find_session, refresh, refresh_found, refresh_session, rotate_session, rotate,
}
use trip2world.Accounts.Auth.{Crypto, Draw, AuthResult}
use trip2world.Accounts.Types.{
  AccountDb, User, Session, ok, refused, token_invalid, Ban, ModerationAction, banned, suspended,
  active, deactivated, pending_verification, AccountStatus,
}

-- No check of a restriction writes a session.
ban-sessions :
    (now id : ℕ) (b : Option Ban) (db : AccountDb)
    → (banned_restriction now id b db).1.sessions ≡ db.sessions
unfolding banned_restriction
ban-sessions now id none db = refl
ban-sessions now id (some b) db =
    elim (Bool-cases (not b.permanent && passed now b.ban_expires_at)) [
      | inl hit ↦ rw hit refl
      | inr miss ↦ rw miss refl
    ]

suspension-sessions :
    (now id : ℕ) (a : Option ModerationAction) (db : AccountDb)
    → (suspended_restriction now id a db).1.sessions ≡ db.sessions
unfolding suspended_restriction
suspension-sessions now id none db = refl
suspension-sessions now id (some a) db = elim (Bool-cases (passed now a.action_expires_at)) [
  | inl hit ↦ rw hit refl
  | inr miss ↦ rw miss refl
]

status-sessions :
    (now id : ℕ) (st : AccountStatus) (db : AccountDb)
    → (restriction_by now id st db).1.sessions ≡ db.sessions
unfolding restriction_by
status-sessions now id banned db = ban-sessions now id (latest_ban id db.bans) db
status-sessions now id suspended db =
    suspension-sessions now id (latest_suspension id db.actions) db
status-sessions now id pending_verification db = refl
status-sessions now id active db = refl
status-sessions now id deactivated db = refl

restriction-sessions :
    (now id : ℕ) (db : AccountDb) → (get_active_restriction now id db).1.sessions ≡ db.sessions
unfolding get_active_restriction restriction_of
restriction-sessions now id db = elim (Option-cases (db.users id)) [
  | inl e ↦ rw e refl
  | inr (u, e) ↦ rw e (status-sessions now id u.status db)
]

-- The session whose token a successful refresh has replaced.
abbrev Replaces : Crypto → Draw → Session → AccountDb → AccountDb → Type 0
Replaces c d s db db' =
    db'.sessions ≡ map (λ x. if x.session_id == s.session_id then rotate c d x else x) db.sessions

rotated_session :
    (c : Crypto) (d : Draw) (s : Session) (u : User) (r : Option Restriction × AccountDb)
    (db : AccountDb) (a : AuthResult)
    → r.1.sessions ≡ db.sessions
    → (rotate_session c d s u r).0 ≡ ok a
    → Replaces c d s db (rotate_session c d s u r).1
unfolding rotate_session
rotated_session c d s u (some r, db') db a same e = absurd (ground (arith, e))
rotated_session c d s u (none, db') db a same e =
    ap (map (λ x. if x.session_id == s.session_id then rotate c d x else x)) same

refreshed_session :
    (c : Crypto) (d : Draw) (s : Session) (o : Option User) (db : AccountDb) (a : AuthResult)
    → (refresh_session c d s o db).0 ≡ ok a
    → Replaces c d s db (refresh_session c d s o db).1
unfolding refresh_session
refreshed_session c d s none db a = λ e. absurd (ground (arith, e))
refreshed_session c d s (some u) db a = elim (Bool-cases (is_some s.revoked_at)) [
  | inl shut ↦ rw shut (λ e. absurd (ground (arith, e)))
  | inr clear ↦ elim (Bool-cases (leb s.session_expires_at d.now || is_some u.deleted_at)) [
    | inl over ↦ rw (clear, over) (λ e. absurd (ground (arith, e)))
    | inr runs ↦
        rw (clear, runs)
          (rotated_session c d s u (get_active_restriction d.now s.session_user db) db a
            (restriction-sessions d.now s.session_user db))
  ]
]

found_session :
    (c : Crypto) (d : Draw) (o : Option Session) (db : AccountDb) (a : AuthResult)
    → (refresh_found c d o db).0 ≡ ok a
    → (s : Session) × (o ≡ some s) × Replaces c d s db (refresh_found c d o db).1
unfolding refresh_found
found_session c d none db a e = absurd (ground (arith, e))
found_session c d (some s) db a e =
    (s, refl, refreshed_session c d s (db.users s.session_user) db a e)

refresh-Replaces :
    (c : Crypto) (d : Draw) (raw : ℕ) (db : AccountDb) (a : AuthResult)
    → (refresh c d raw db).0 ≡ ok a
    → (s : Session) × (find_session (c.hash_token raw) db.sessions ≡ some s)
      × Replaces c d s db (refresh c d raw db).1
unfolding refresh
refresh-Replaces c d raw db a e =
    found_session c d (find_session (c.hash_token raw) db.sessions) db a e

-- The unique index on the hash.
abbrev pub HashesUnique : List Session → Type 0
HashesUnique xs =
    (x y : Session)
    → In x xs
    → In y xs
    → x.refresh_token_hash ≡ y.refresh_token_hash
    → x.session_id ≡ y.session_id

found_In :
    (h : ℕ) (xs : List Session) (s : Session)
    → find_session h xs ≡ some s
    → In s xs × (s.refresh_token_hash ≡ h)
unfolding find_session
found_In h [] s = λ e. absurd (ground (arith, e))
found_In h (x ∷ xs) s = elim (Bool-cases (x.refresh_token_hash == h)) [
  | inl hit ↦ rw hit (λ e. (inl (ground (arith, e)), ground (arith, e, hit)))
  | inr miss ↦ rw miss (λ e. let (i, g) = found_In h xs s e in (inr i, g))
]

-- Once every session with the hash has taken another, none is found.
rotated_away :
    (c : Crypto) (d : Draw) (h id : ℕ) (xs : List Session)
    → c.hash_token d.fresh_token ≢ h
    → ((x : Session) → In x xs → x.refresh_token_hash ≡ h → x.session_id ≡ id)
    → find_session h (map (λ x. if x.session_id == id then rotate c d x else x) xs) ≡ none
unfolding find_session
rotated_away c d h id [] fresh only = refl
rotated_away c d h id (x ∷ xs) fresh only =
    let rest = rotated_away c d h id xs fresh (λ y i. only y (inr i)) in
    elim (Bool-cases (x.session_id == id)) [
      | inl hit ↦ rw hit (ground (arith, fresh, rest))
      | inr miss ↦ rw miss (ground (arith, rest, only x (inl refl)))
    ]

unknown_token :
    (c : Crypto) (d : Draw) (raw : ℕ) (db : AccountDb)
    → find_session (c.hash_token raw) db.sessions ≡ none
    → refresh c d raw db ≡ (refused token_invalid, db)
unfolding refresh refresh_found
unknown_token c d raw db e = ap (λ o. refresh_found c d o db) e

-- A token that has been rotated away is refused from then on, and, since its hash is in no row, its
-- presentation changes nothing: no session is revoked. It takes that the hash of the new token is
-- another one, and that the hashes of the sessions are unique.
pub refresh_replay :
    (c : Crypto) (d later : Draw) (raw : ℕ) (db : AccountDb) (a : AuthResult)
    → HashesUnique db.sessions
    → c.hash_token d.fresh_token ≢ c.hash_token raw
    → (refresh c d raw db).0 ≡ ok a
    → refresh c later raw (refresh c d raw db).1 ≡ (refused token_invalid, (refresh c d raw db).1)
refresh_replay c d later raw db a unique fresh done =
    let (s, f, w) = refresh-Replaces c d raw db a done in
    let (i, h) = found_In (c.hash_token raw) db.sessions s f in
    let gone : find_session (c.hash_token raw) (refresh c d raw db).1.sessions ≡ none =
      ap (find_session (c.hash_token raw)) w
      ∙ rotated_away c d (c.hash_token raw) s.session_id db.sessions fresh
          (λ x j e. unique x s j i (e ∙ sym h)) in
    unknown_token c later raw (refresh c d raw db).1 gone
