-- ===== src/Accounts/Tests.antt =====
-- Tests of the accounts at concrete inputs.
use trip2world.Prelude.{
  ℕ, ◌+◌, ◌≤◌, ◌<◌, ◌≡◌, refl, sym, ap, ◌∙◌, ◌≢◌, inl, inr, true, false, Option, none, some, List,
  [], ◌∷◌, arith, ◌==◌, if◌then◌else◌, codes, text_eq,
}
use trip2world.Accounts.Verdicts.{resolve-Shut}
use trip2world.Privacy.Age.{Day, meets_minimum_age, calculate_age}
use trip2world.Accounts.Registration.{
  register, RegisterInput, SystemSettings, register-verify_email, new_user, registration_error,
}
use trip2world.Accounts.Refresh.{refresh_found, refresh_session, rotate_session, find_session}
use trip2world.Queue.Store.{Store}
use trip2world.Accounts.Auth.{Crypto, Draw, access_claims, login}
use trip2world.Accounts.Refresh.{refresh}
use trip2world.Accounts.Calls.{
  AccountCall, ModerationCall, logs_in, asks_deletion, warns, acts_directly, moderate_all, serve,
}
use trip2world.Accounts.Decisions.{
  DirectInput, Weather, resolve_direct, direct_error, ResolveInput, suspend_user, resolve,
  resolve_found, resolve_error,
}
use trip2world.Accounts.Eviction.{Shut, Gone, resolve_direct-Shut}
use trip2world.Accounts.Laundering.{suspension_launders}
use trip2world.Accounts.Lockout.{wrong_password-login}
use trip2world.Accounts.Machine.{Rows, allowed}
use trip2world.Accounts.Moderation.{Site, Moderator, assert_actionable, actionable}
use trip2world.Accounts.Owners.{serve-Own}
use trip2world.Accounts.Recovery.{reset_password, find_token, check_token, reset_to, verify_email}
use trip2world.Accounts.Restrictions.{get_active_restriction, restriction_of, restriction_by}
use trip2world.Accounts.Secrets.{refresh_replay, HashesUnique}
use trip2world.Accounts.Resets.{reset_password-ResetDone, ResetDone}
use trip2world.Accounts.Staff.{staff_untouched}
use trip2world.Accounts.Types.{
  User, Session, AccountDb, VerificationToken, ModerationAction, AccountStatus, UserRole, user,
  moderator, active, suspended, deactivated, pending_verification, password_reset, suspension,
  refused, token_invalid, rate_limited, admin, ok, Report, spam, report_pending,
}

abbrev someone : UserRole → AccountStatus → ℕ → User
someone r st failed = record {
  role = r;
  status = st;
  email = 0;
  username = [];
  email_verified = false;
  email_verified_at = none;
  password_hash = some 5;
  token_generation = 3;
  failed_login_attempts = failed;
  locked_until = none;
  last_login_at = none;
  last_ip_hash = none;
  deletion_requested_at = none;
  deleted_at = none;
}

abbrev waiting_user : User
waiting_user = someone user pending_verification 4

abbrev staff : User
staff = someone moderator active 0

abbrev punished : User
punished = someone user suspended 0

-- User 1 awaits the mail, 2 is a moderator, 3 has been suspended twice, the last time until 100.
abbrev rows : ℕ → Option User
rows id =
    if id == 1
    then some waiting_user
    else if id == 2
    then some staff
    else if id == 3
    then some punished
    else none

abbrev session : Session
session = record {
  session_id = 40;
  session_user = 1;
  refresh_token_hash = 1007;
  rotation_counter = 0;
  session_expires_at = 5000;
  last_used_at = 0;
  revoked_at = none;
  revoked_reason = none;
  user_agent = none;
  session_ip_hash = 0;
}

abbrev link : VerificationToken
link = record {
  token_user = 1;
  kind = password_reset;
  token_hash = 1009;
  token_expires_at = 900;
  consumed_at = none;
}

abbrev suspended_until : ℕ → ModerationAction
suspended_until t = record {
  target_user = 3;
  moderator_id = some 2;
  type_of = suspension;
  reason = [];
  notes = none;
  action_expires_at = some t;
}

abbrev db : AccountDb
db = record {
  users = rows;
  sessions = session ∷ [];
  tokens = link ∷ [];
  actions = suspended_until 100 ∷ suspended_until 9000 ∷ [];
  bans = [];
  reports = λ id. none;
  audits = [];
  next_ban_id = 0;
}

abbrev store : Store
store = record {
  entry = λ u. none;
  queue = λ sh. [];
  active_shards = [];
  user_match = λ u. none;
  match_of = λ m. none;
  match_lock = λ u. none;
  recent = λ u. [];
  skip_marker = λ u. false;
  block_cache = λ u. none;
}

abbrev site : Site
site = record { db = db; redis = store; present = λ u. true }

-- A password's hash is itself, a token's is a thousand more.
abbrev crypto : Crypto
crypto = record { verify = λ h p. h == p; hash_token = λ t. t + 1000; needs_rehash = λ h. false }

abbrev draw_at : ℕ → Draw
draw_at t = record {
  now = t;
  fresh_token = 8;
  fresh_session_id = 41;
  fresh_password_hash = 6;
  ip_hash = 0;
  agent = none;
  log_up = true;
}

abbrev two : Moderator
two = record { id_of = 2; role_of = moderator }

abbrev weather : Weather
weather = record { audit_up = true; redis_up = true }

abbrev hour : ℕ → DirectInput
hour target = record {
  direct_target = target;
  direct_ban = false;
  direct_reason = [];
  direct_notes = none;
  direct_hours = some 1;
}

serve-Own_example :
    Rows
      (allowed (asks_deletion crypto (draw_at 10) 1 5) db 1)
      (db.users 1)
      ((serve (asks_deletion crypto (draw_at 10) 1 5) db).users 1)
serve-Own_example = serve-Own (asks_deletion crypto (draw_at 10) 1 5) db 1

-- User 1 has asked for deletion.
abbrev gone_db : AccountDb
gone_db = record db { users = λ id. if id == 1 then some (someone user deactivated 0) else none }

abbrev back : List AccountCall
back = logs_in crypto (draw_at 20) (some 1) 5 ∷ []

abbrev attempts : List ModerationCall
attempts =
    acts_directly weather 0 (hour 2) (record { id_of = 9; role_of = admin })
    ∷ warns true 1 (record { warn_target = 2; warn_reason = []; warn_notes = none }) two
    ∷ []

staff_untouched_example : (moderate_all attempts site).db.users 2 ≡ some staff
staff_untouched_example = staff_untouched attempts site 2 (staff, refl, refl, refl)

resolve_direct-Shut_example :
    Shut 1 (resolve_direct weather 0 (hour 1) two site).1.db
    × (true ≡ true → Gone 1 (resolve_direct weather 0 (hour 1) two site).1)
unfolding resolve_direct direct_error assert_actionable actionable
resolve_direct-Shut_example = resolve_direct-Shut weather 0 (hour 1) two site refl

suspension_launders_example :
    let (restriction, after) =
      get_active_restriction 3600000 1 (resolve_direct weather 0 (hour 1) two site).1.db in
    (restriction ≡ none)
    × (after.users 1 ≡ some (record waiting_user { status = active; token_generation = 4 }))
    × (after.bans ≡ [])
unfolding resolve_direct direct_error assert_actionable actionable
suspension_launders_example =
    suspension_launders weather 0 3600000 (hour 1) two site waiting_user refl refl refl
      (omega arith)

abbrev one_hash : HashesUnique (session ∷ [])
one_hash x y (inl e) (inl f) same = ap Session.session_id (e ∙ sym f)
one_hash x y (inl e) (inr i) same = absurd i
one_hash x y (inr i) j same = absurd i

abbrev after_refresh : AccountDb
after_refresh = (refresh crypto (draw_at 10) 7 db).1

refresh_replay_example :
    refresh crypto (draw_at 11) 7 after_refresh ≡ (refused token_invalid, after_refresh)
unfolding refresh refresh_found refresh_session rotate_session find_session get_active_restriction
    restriction_of restriction_by
refresh_replay_example =
    refresh_replay crypto (draw_at 10) (draw_at 11) 7 db
      (record { claims = access_claims 10 1 40 3; refresh_token = 8 }) one_hash (λ e. omega arith)
      refl

reset_password-ResetDone_example :
    ResetDone crypto 9 1 db (reset_password crypto (draw_at 10) 9 db).1
unfolding reset_password find_token check_token reset_to
reset_password-ResetDone_example = reset_password-ResetDone crypto (draw_at 10) 9 1 db refl

abbrev after_wrong : AccountDb
after_wrong = (login crypto (draw_at 10) (some 1) 0 db).1

wrong_password-login_example :
    (20 < 30010
      → login crypto (draw_at 20) (some 1) 5 after_wrong ≡ (refused rate_limited, after_wrong))
    × (900010 ≤ 20 → (login crypto (draw_at 20) (some 1) 5 after_wrong).0 ≢ refused rate_limited)
wrong_password-login_example =
    wrong_password-login crypto (draw_at 10) (draw_at 20) 1 0 5 waiting_user 5 db refl refl refl
      refl refl (omega arith)

abbrev open_settings : SystemSettings
open_settings = record {
  registration_open = true;
  minimum_age = 18;
  enabled_countries = none;
  require_email_verification = true;
}

abbrev newcomer : RegisterInput
newcomer = record {
  new_email = 77;
  new_username = codes "eva";
  born = some (record { year = 2000; month = 2; day = 2 });
  home = codes "PT";
}

abbrev signup_day : Day
signup_day = record { year = 2024; month = 5; day = 19 }

abbrev registered_db : AccountDb
registered_db =
    (register open_settings crypto (draw_at 10) signup_day 0 newcomer 5 (1 ∷ 2 ∷ 3 ∷ []) db).1

register-verify_email_example :
    (registered_db.users 5 ≡ some (new_user open_settings (draw_at 10) newcomer))
    × (pending_verification ≡ pending_verification)
    × ((verify_email crypto (draw_at 20) 8 registered_db).0 ≡ ok 5)
    × ((verify_email crypto (draw_at 20) 8 registered_db).1.users 5
        ≡ some (record (new_user open_settings (draw_at 10) newcomer) {
          status = active;
          email_verified = true;
          email_verified_at = some 20;
        }))
unfolding register registration_error meets_minimum_age calculate_age text_eq
register-verify_email_example =
    register-verify_email open_settings crypto (draw_at 10) (draw_at 20) signup_day 0 newcomer 5 8
      (1 ∷ 2 ∷ 3 ∷ []) db refl (omega arith)

-- A report on user 1.
abbrev complaint : Report
complaint = record {
  reporter = some 3;
  reported_user = 1;
  category = spam;
  report_status = report_pending;
  reported_at = 0;
  reviewed_by = none;
  reviewed_at = none;
  moderator_notes = none;
}

abbrev reported_site : Site
reported_site = record site {
  db = record db { reports = λ id. if id == 60 then some complaint else none };
}

abbrev two_days : ResolveInput
two_days = record {
  report_id = 60;
  decision = suspend_user;
  decision_reason = none;
  decision_notes = none;
  suspension_hours = 48;
}

resolve-Shut_example : Shut 1 (resolve weather 0 two_days two reported_site).1.db
unfolding resolve resolve_found resolve_error assert_actionable actionable
resolve-Shut_example = resolve-Shut weather 0 two_days two complaint reported_site refl refl refl
