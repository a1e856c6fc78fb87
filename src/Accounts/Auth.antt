-- ===== src/Accounts/Auth.antt =====
-- AuthService. The cryptography is a parameter: `verify` answers for a stored hash and a password,
-- `hash_token` is SHA-256 of a token. Fresh tokens, hashes and ids are arguments, and so is the clock.
-- A database call that fails, which would end a call with an error, is left out.
use trip2world.Accounts.Restrictions.{Restriction, get_active_restriction}
use trip2world.Accounts.Types.{
  AccountDb, User, Reply, update_user, ApiError, ok, account_banned, refused, account_suspended,
  audit, invalid_credentials, logged_in, rate_limited,
}
use trip2world.Prelude.{
  ℕ, suc, ◌+◌, ◌-◌, ◌*◌, min, Bool, false, not, Option, none, some, ◌∷◌, ltb, leb, if◌then◌else◌,
  is_some, take, Text, ◌^◌,
}

pub record Crypto : Type 0 where
  pub verify : ℕ → ℕ → Bool
  pub hash_token : ℕ → ℕ
  pub needs_rehash : ℕ → Bool

-- What a call draws or is given besides its input.
pub record Draw : Type 0 where
  pub now : ℕ
  pub fresh_token : ℕ
  pub fresh_session_id : ℕ
  pub fresh_password_hash : ℕ
  pub ip_hash : ℕ
  pub agent : Option Text
  pub log_up : Bool

-- The claims of an access token.
pub record Claims : Type 0 where
  pub sub : ℕ
  pub sid : ℕ
  pub gen : ℕ
  pub expires : ℕ

pub record AuthResult : Type 0 where
  pub claims : Claims
  pub refresh_token : ℕ

-- REFRESH_TOKEN_TTL_SECONDS and ACCESS_TOKEN_TTL_SECONDS, in milliseconds.
abbrev pub refresh_ttl : ℕ
refresh_ttl = 60 * 60 * 24 * 30 * 1000

abbrev pub access_ttl : ℕ
access_ttl = 15 * 60 * 1000

abbrev pub access_claims : ℕ → ℕ → ℕ → ℕ → Claims
access_claims now id session generation = record {
  sub = id;
  sid = session;
  gen = generation;
  expires = now + access_ttl;
}

-- `userAgent?.slice(0, 400) ?? null`
abbrev pub clip_agent : Option Text → Option Text
clip_agent none = none
clip_agent (some a) = some (take 400 a)

-- `issueSession`
unfoldable pub issue_session : Crypto → Draw → ℕ → ℕ → AccountDb → Reply AuthResult × AccountDb
issue_session c d id generation db = (
  ok (record {
    claims = access_claims d.now id d.fresh_session_id generation;
    refresh_token = d.fresh_token;
  }),
  record db {
    sessions =
        record {
          session_id = d.fresh_session_id;
          session_user = id;
          refresh_token_hash = c.hash_token d.fresh_token;
          rotation_counter = 0;
          session_expires_at = d.now + refresh_ttl;
          last_used_at = d.now;
          revoked_at = none;
          revoked_reason = none;
          user_agent = clip_agent d.agent;
          session_ip_hash = d.ip_hash;
        }
        ∷ db.sessions;
  },
)

-- Five failures, then a doubling delay that stays within a quarter of an hour.
abbrev pub threshold : ℕ
threshold = 5

unfoldable pub lock_seconds : ℕ → ℕ
lock_seconds attempts = min (30 * 2 ^ (attempts - threshold)) 900

unfoldable pub locked_after : ℕ → ℕ → Option ℕ
locked_after now attempts =
    if leb threshold attempts then some (now + lock_seconds attempts * 1000) else none

unfoldable pub record_failed_login : ℕ → ℕ → ℕ → AccountDb → AccountDb
record_failed_login now id attempts db =
    update_user id
      (λ u. record u {
        failed_login_attempts = suc attempts;
        locked_until = locked_after now (suc attempts);
      })
      db

-- `lockedUntil > new Date()`
abbrev pub is_locked : ℕ → User → Bool
is_locked now u = elim (u.locked_until) [ none ↦ false | some t ↦ ltb now t ]

abbrev pub restriction_error : Restriction → ApiError
restriction_error r = if r.by_ban then account_banned else account_suspended

abbrev pub signed_in : Draw → User → User
signed_in d u = record u {
  failed_login_attempts = 0;
  locked_until = none;
  last_login_at = some d.now;
  last_ip_hash = some d.ip_hash;
  deletion_requested_at = none;
}

abbrev pub rehash : Crypto → Draw → ℕ → User → User
rehash c d h u =
    if c.needs_rehash h then record u { password_hash = some d.fresh_password_hash } else u

-- From the right password on; the user is the row that was read before.
unfoldable pub admit :
    Crypto → Draw → ℕ → User → ℕ → Option Restriction × AccountDb → Reply AuthResult × AccountDb
admit c d id u h (some r, db) = (refused (restriction_error r), db)
admit c d id u h (none, db) = issue_session c d id u.token_generation (
    audit d.log_up d.now (some id) logged_in (some id)
      (update_user id (λ v. signed_in d (rehash c d h v)) db))

unfoldable pub login_hash :
    Crypto → Draw → ℕ → ℕ → User → Option ℕ → AccountDb → Reply AuthResult × AccountDb
login_hash c d id password u none db = (refused invalid_credentials, db)
login_hash c d id password u (some h) db =
    if is_some u.deleted_at
    then (refused invalid_credentials, db)
    else (if is_locked d.now u
        then (refused rate_limited, db)
        else (if not (c.verify h password)
            then (
              refused invalid_credentials,
              record_failed_login d.now id u.failed_login_attempts db,
            )
            else admit c d id u h (get_active_restriction d.now id db)))

unfoldable pub login_row :
    Crypto → Draw → ℕ → ℕ → Option User → AccountDb → Reply AuthResult × AccountDb
login_row c d id password none db = (refused invalid_credentials, db)
login_row c d id password (some u) db = login_hash c d id password u u.password_hash db

-- `login`, of the user whom the email names: `none` is an unknown email.
unfoldable pub login : Crypto → Draw → Option ℕ → ℕ → AccountDb → Reply AuthResult × AccountDb
login c d none password db = (refused invalid_credentials, db)
login c d (some id) password db = login_row c d id password (db.users id) db
