-- ===== src/Accounts/Refresh.antt =====
-- `refresh`, `logout` and `revokeAllSessions` of AuthService.
use trip2world.Accounts.Restrictions.{Restriction, get_active_restriction}
use trip2world.Accounts.Auth.{
  Crypto, Draw, refresh_ttl, AuthResult, restriction_error, access_claims,
}
use trip2world.Accounts.Types.{
  Session, AccountDb, RevokedReason, revoke, revoke_sessions, User, Reply, for_logout, refused,
  token_invalid, for_restriction, for_reuse, ok, token_expired,
}
use trip2world.Prelude.{
  ℕ, suc, ◌+◌, not, ◌||◌, Option, none, some, List, [], ◌∷◌, map, leb, ◌==◌, if◌then◌else◌, is_some,
  filter,
}

-- The unique index on the hash gives at most one session.
unfoldable pub find_session : ℕ → List Session → Option Session
find_session hash [] = none
find_session hash (s ∷ rest) =
    if s.refresh_token_hash == hash then some s else find_session hash rest

abbrev pub update_session : ℕ → (Session → Session) → AccountDb → AccountDb
update_session id f db = record db {
  sessions = map (λ s. if s.session_id == id then f s else s) db.sessions;
}

abbrev pub delete_session : ℕ → AccountDb → AccountDb
delete_session id db = record db { sessions = filter (λ s. not (s.session_id == id)) db.sessions }

abbrev pub rotate : Crypto → Draw → Session → Session
rotate c d s = record s {
  refresh_token_hash = c.hash_token d.fresh_token;
  rotation_counter = suc s.rotation_counter;
  last_used_at = d.now;
  session_expires_at = d.now + refresh_ttl;
  session_ip_hash = d.ip_hash;
}

-- From the check of the restriction on; the user is the row that was read with the session.
unfoldable pub rotate_session :
    Crypto → Draw → Session → User → Option Restriction × AccountDb → Reply AuthResult × AccountDb
rotate_session c d s u (some r, db) =
    (refused (restriction_error r), revoke_sessions s.session_user d.now for_restriction db)
rotate_session c d s u (none, db) = (
  ok (record {
    claims = access_claims d.now s.session_user s.session_id u.token_generation;
    refresh_token = d.fresh_token;
  }),
  update_session s.session_id (rotate c d) db,
)

-- A session goes with its user, so that the user is there.
unfoldable pub refresh_session :
    Crypto → Draw → Session → Option User → AccountDb → Reply AuthResult × AccountDb
refresh_session c d s none db = (refused token_invalid, db)
refresh_session c d s (some u) db =
    if is_some s.revoked_at
    then (refused token_invalid, revoke_sessions s.session_user d.now for_reuse db)
    else (if leb s.session_expires_at d.now || is_some u.deleted_at
        then (refused token_expired, delete_session s.session_id db)
        else rotate_session c d s u (get_active_restriction d.now s.session_user db))

unfoldable pub refresh_found :
    Crypto → Draw → Option Session → AccountDb → Reply AuthResult × AccountDb
refresh_found c d none db = (refused token_invalid, db)
refresh_found c d (some s) db = refresh_session c d s (db.users s.session_user) db

unfoldable pub refresh : Crypto → Draw → ℕ → AccountDb → Reply AuthResult × AccountDb
refresh c d raw db = refresh_found c d (find_session (c.hash_token raw) db.sessions) db

unfoldable pub logout : ℕ → ℕ → AccountDb → AccountDb
logout now id db = update_session id (revoke now for_logout) db

unfoldable pub revoke_all_sessions : ℕ → ℕ → RevokedReason → AccountDb → AccountDb
revoke_all_sessions now id why db = revoke_sessions id now why db
