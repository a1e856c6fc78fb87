-- ===== src/Accounts/Gate.antt =====
-- Who gets in: `resolveUser` of apps/api/src/plugins/auth.plugin.ts for a request, `authenticateSocket`
-- and `revalidateSocket` of apps/realtime/src/socket-auth.ts for a socket. `verify_token` is the
-- signature check of the token library, and gives the claims of a valid token; `revoked` is the
-- denylist of sessions.
use trip2world.Accounts.Auth.{Claims}
use trip2world.Accounts.Types.{suspended, banned, deactivated, AccountDb, User, status_eq}
use trip2world.Prelude.{
  ℕ, Bool, false, not, ◌&&◌, ◌||◌, Option, none, some, ◌==◌, if◌then◌else◌, is_some,
}

pub data GateError : Type 0 where
  unauthenticated expired_token restricted_account : GateError

pub data Checked : Type 0 where
  valid : Claims → Checked
  expired_claims invalid_token : Checked

-- The tests on the row that the claims name, which the two gates share.
unfoldable pub check_account : Claims → Option User → Option GateError
check_account claims none = some unauthenticated
check_account claims (some u) =
    if is_some u.deleted_at || not (u.token_generation == claims.gen)
    then some unauthenticated
    else elim (u.status) [
      | banned ↦ some restricted_account
      | suspended ↦ some restricted_account
      | deactivated ↦ some restricted_account
      | _ ↦ none
    ]

unfoldable pub authenticate_socket :
    Option ℕ → (ℕ → Checked) → (ℕ → Bool) → AccountDb → Option GateError
authenticate_socket none verify_token revoked db = some unauthenticated
authenticate_socket (some token) verify_token revoked db = elim (verify_token token) [
  | expired_claims ↦ some unauthenticated
  | invalid_token ↦ some unauthenticated
  | valid claims ↦
      if revoked claims.sid
      then some unauthenticated
      else check_account claims (db.users claims.sub)
]

-- The HTTP gate tells an expired token and a deactivated account apart.
unfoldable pub http_account : Claims → Option User → Option GateError
http_account claims none = some unauthenticated
http_account claims (some u) =
    if is_some u.deleted_at || not (u.token_generation == claims.gen)
    then some unauthenticated
    else elim (u.status) [
      | banned ↦ some restricted_account
      | suspended ↦ some restricted_account
      | deactivated ↦ some unauthenticated
      | _ ↦ none
    ]

unfoldable pub resolve_user : ℕ → (ℕ → Checked) → (ℕ → Bool) → AccountDb → Option GateError
resolve_user token verify_token revoked db = elim (verify_token token) [
  | expired_claims ↦ some expired_token
  | invalid_token ↦ some unauthenticated
  | valid claims ↦
      if revoked claims.sid then some unauthenticated else http_account claims (db.users claims.sub)
]

-- `revalidateSocket`: whether the account may stay.
unfoldable pub standing : Option User → Bool
standing none = false
standing (some u) =
    not (is_some u.deleted_at) && not (status_eq u.status banned || status_eq u.status suspended)

unfoldable pub revalidate_socket : ℕ → AccountDb → Bool
revalidate_socket id db = standing (db.users id)
