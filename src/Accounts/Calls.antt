-- ===== src/Accounts/Calls.antt =====
-- The calls that the services and the jobs make on the accounts, in any order, with whatever the clock,
-- the fresh values and the network give them.
use trip2world.Accounts.Restrictions.{get_active_restriction}
use trip2world.Accounts.Recovery.{
  verify_email, create_password_reset_token, reset_password, change_password, request_deletion,
}
use trip2world.Accounts.Refresh.{refresh, logout}
use trip2world.Accounts.Jobs.{
  prune_audit_log, prune_sessions, prune_verification_tokens, restore_due, lift_run_out,
}
use trip2world.Accounts.Types.{AccountDb, Ban}
use trip2world.Accounts.Auth.{Crypto, Draw, login}
use trip2world.Accounts.Decisions.{
  Weather, ResolveInput, DirectInput, resolve, resolve_direct, reinstate,
}
use trip2world.Accounts.Moderation.{WarnInput, Site, Moderator, warn, claim}
use trip2world.Prelude.{ℕ, Bool, Option, List, [], ◌∷◌, Text}

-- A moderator's call.
pub data ModerationCall : Type 0 where
  warns : Bool → ℕ → WarnInput → Moderator → ModerationCall
  claims_report : ℕ → Moderator → ModerationCall
  resolves : Weather → ℕ → ResolveInput → Moderator → ModerationCall
  acts_directly : Weather → ℕ → DirectInput → Moderator → ModerationCall
  reinstates : Bool → ℕ → ℕ → Text → Moderator → ModerationCall

unfoldable pub moderate : ModerationCall → Site → Site
moderate (warns up now input m) s = (warn up now input m s).1
moderate (claims_report id m) s = (claim id m s).1
moderate (resolves up now input m) s = (resolve up now input m s).1
moderate (acts_directly up now input m) s = (resolve_direct up now input m s).1
moderate (reinstates up now target why m) s = (reinstate up now target why m s).1

abbrev pub caller : ModerationCall → Moderator
caller (warns up now input m) = m
caller (claims_report id m) = m
caller (resolves up now input m) = m
caller (acts_directly up now input m) = m
caller (reinstates up now target why m) = m

unfoldable pub moderate_all : List ModerationCall → Site → Site
moderate_all [] s = s
moderate_all (call ∷ calls) s = moderate_all calls (moderate call s)

-- A call of the account's owner, or of a job. The writes of a job are calls of their own, for whatever
-- it has read.
pub data AccountCall : Type 0 where
  logs_in : Crypto → Draw → Option ℕ → ℕ → AccountCall
  refreshes : Crypto → Draw → ℕ → AccountCall
  logs_out : ℕ → ℕ → AccountCall
  verifies : Crypto → Draw → ℕ → AccountCall
  asks_reset : Crypto → Draw → ℕ → AccountCall
  resets : Crypto → Draw → ℕ → AccountCall
  changes_password : Crypto → Draw → ℕ → ℕ → ℕ → AccountCall
  asks_deletion : Crypto → Draw → ℕ → ℕ → AccountCall
  checks_restriction : ℕ → ℕ → AccountCall
  restores : ℕ → List ℕ → AccountCall
  lifts_bans : ℕ → List Ban → AccountCall
  prunes : ℕ → ℕ → AccountCall

unfoldable pub prune_all : ℕ → ℕ → AccountDb → AccountDb
prune_all now days db =
    prune_audit_log now days (prune_sessions now (prune_verification_tokens now db))

unfoldable pub serve : AccountCall → AccountDb → AccountDb
serve (logs_in c d id password) db = (login c d id password db).1
serve (refreshes c d raw) db = (refresh c d raw db).1
serve (logs_out now id) db = logout now id db
serve (verifies c d raw) db = (verify_email c d raw db).1
serve (asks_reset c d id) db = (create_password_reset_token c d id (db.users id) db).1
serve (resets c d raw) db = (reset_password c d raw db).1
serve (changes_password c d id current keep) db = (change_password c d id current keep db).1
serve (asks_deletion c d id password) db = (request_deletion c d id password db).1
serve (checks_restriction now id) db = (get_active_restriction now id db).1
serve (restores now ids) db = restore_due now ids db
serve (lifts_bans now run_out) db = lift_run_out now run_out db
serve (prunes now days) db = prune_all now days db

unfoldable pub serve_all : List AccountCall → AccountDb → AccountDb
serve_all [] db = db
serve_all (call ∷ calls) db = serve_all calls (serve call db)
