-- ===== src/Accounts/Recovery.antt =====
-- AuthService from the mailed links on: the verification of the address, the reset and the change of a
-- password, and the request for deletion.
use trip2world.Accounts.Auth.{Crypto, Draw}
use trip2world.Accounts.Types.{
  email_verification, password_reset, pending_verification, refused, ok, TokenKind,
  VerificationToken, AccountDb, User, Session, Reply, active, status_eq, is_open_of, deactivated,
  token_invalid, audit, banned, invalid_credentials, token_expired, email_confirmed,
  password_was_reset, update_user, deletion_requested, revoke_sessions, password_changed, for_reset,
  revoke, for_deletion, for_change, AccountStatus,
}
use trip2world.Prelude.{
  ℕ, suc, ◌+◌, ◌*◌, Bool, true, false, not, ◌&&◌, ◌||◌, Option, none, some, List, [], ◌∷◌, map, leb,
  ◌==◌, if◌then◌else◌, is_some,
}

abbrev pub kind_eq : TokenKind → TokenKind → Bool
kind_eq email_verification email_verification = true
kind_eq password_reset password_reset = true
kind_eq _ _ = false

-- The unique index on the hash gives at most one token.
unfoldable pub find_token : ℕ → List VerificationToken → Option VerificationToken
find_token hash [] = none
find_token hash (t ∷ rest) = if t.token_hash == hash then some t else find_token hash rest

abbrev pub consume : ℕ → VerificationToken → VerificationToken
consume now t = record t { consumed_at = some now }

abbrev pub consume_token : ℕ → ℕ → AccountDb → AccountDb
consume_token hash now db = record db {
  tokens = map (λ t. if t.token_hash == hash then consume now t else t) db.tokens;
}

-- The three tests on a link: the user whom it is for, or the error.
unfoldable pub check_token : TokenKind → ℕ → Option VerificationToken → Reply ℕ
check_token k now none = refused token_invalid
check_token k now (some t) =
    if not (kind_eq t.kind k) || is_some t.consumed_at
    then refused token_invalid
    else (if leb t.token_expires_at now then refused token_expired else ok t.token_user)

abbrev pub confirm : ℕ → User → User
confirm now u = record u { email_verified = true; email_verified_at = some now }

-- The promotion is for accounts that await it and for no others.
abbrev pub promoted : AccountStatus → AccountStatus
promoted pending_verification = active
promoted s = s

abbrev pub promote : User → User
promote u = record u { status = promoted u.status }

unfoldable pub verified : Crypto → Draw → ℕ → Reply ℕ → AccountDb → Reply ℕ × AccountDb
verified c d raw (refused e) db = (refused e, db)
verified c d raw (ok id) db = (
  ok id,
  audit d.log_up d.now (some id) email_confirmed (some id) (
      update_user id promote
        (update_user id (confirm d.now) (consume_token (c.hash_token raw) d.now db))),
)

unfoldable pub verify_email : Crypto → Draw → ℕ → AccountDb → Reply ℕ × AccountDb
verify_email c d raw db =
    verified c d raw
      (check_token email_verification d.now (find_token (c.hash_token raw) db.tokens)) db

-- PASSWORD_RESET_TTL_SECONDS, in milliseconds.
abbrev pub reset_ttl : ℕ
reset_ttl = 60 * 60 * 1000

abbrev pub is_outstanding_reset : ℕ → VerificationToken → Bool
is_outstanding_reset id t =
    t.token_user == id && (kind_eq t.kind password_reset && not (is_some t.consumed_at))

abbrev pub may_reset : User → Bool
may_reset u = not (is_some u.deleted_at) && not (status_eq u.status banned)

-- The row of the user whom the email names, if there is one.
unfoldable pub create_password_reset_token :
    Crypto → Draw → ℕ → Option User → AccountDb → Option ℕ × AccountDb
create_password_reset_token c d id none db = (none, db)
create_password_reset_token c d id (some u) db = if not (may_reset u) then (none, db) else (
  some d.fresh_token,
  record db {
    tokens =
        record {
          token_user = id;
          kind = password_reset;
          token_hash = c.hash_token d.fresh_token;
          token_expires_at = d.now + reset_ttl;
          consumed_at = none;
        }
        ∷ map (λ t. if is_outstanding_reset id t then consume d.now t else t) db.tokens;
  },
)

abbrev pub with_new_password : ℕ → User → User
with_new_password h u = record u {
  password_hash = some h;
  token_generation = suc u.token_generation;
  failed_login_attempts = 0;
  locked_until = none;
}

unfoldable pub reset_to : Crypto → Draw → ℕ → Reply ℕ → AccountDb → Reply ℕ × AccountDb
reset_to c d raw (refused e) db = (refused e, db)
reset_to c d raw (ok id) db = (
  ok id,
  audit d.log_up d.now (some id) password_was_reset (some id) (
      revoke_sessions id d.now for_reset (
        update_user id (with_new_password d.fresh_password_hash)
          (consume_token (c.hash_token raw) d.now db))),
)

unfoldable pub reset_password : Crypto → Draw → ℕ → AccountDb → Reply ℕ × AccountDb
reset_password c d raw db =
    reset_to c d raw (check_token password_reset d.now (find_token (c.hash_token raw) db.tokens)) db

-- Whether the password is that of the row.
abbrev pub knows_password : Crypto → ℕ → Option User → Bool
knows_password c password none = false
knows_password c password (some u) = elim (u.password_hash) [
  | none ↦ false
  | some h ↦ c.verify h password
]

abbrev pub changed_password : ℕ → User → User
changed_password h u = record u {
  password_hash = some h;
  token_generation = suc u.token_generation;
}

abbrev pub is_other_of : ℕ → ℕ → Session → Bool
is_other_of id keep s = is_open_of id s && not (s.session_id == keep)

unfoldable pub change_password :
    Crypto → Draw → ℕ → ℕ → ℕ → AccountDb → Reply (Unit {0}) × AccountDb
change_password c d id current keep db =
    if not (knows_password c current (db.users id)) then (refused invalid_credentials, db) else (
      ok tt,
      (let written = update_user id (changed_password d.fresh_password_hash) db in
          audit d.log_up d.now (some id) password_changed (some id) (record written {
            sessions =
                map (λ s. if is_other_of id keep s then revoke d.now for_change s else s)
                  written.sessions;
          })),
    )

abbrev pub ask_deletion : ℕ → User → User
ask_deletion now u = record u { deletion_requested_at = some now; status = deactivated }

-- ACCOUNT_DELETION_GRACE_DAYS, in milliseconds.
abbrev pub grace_period : ℕ
grace_period = 14 * 86400000

unfoldable pub request_deletion : Crypto → Draw → ℕ → ℕ → AccountDb → Reply ℕ × AccountDb
request_deletion c d id password db =
    if not (knows_password c password (db.users id)) then (refused invalid_credentials, db) else (
      ok (d.now + grace_period),
      audit d.log_up d.now (some id) deletion_requested (some id)
          (revoke_sessions id d.now for_deletion (update_user id (ask_deletion d.now) db)),
    )
